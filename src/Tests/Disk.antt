-- ===== src/Tests/Disk.antt =====
-- A file system in memory that does what the calls on files say: a function from names to contents,
-- on which writing fails where the disk is full.
use schedbench.Base.{
  ◌≡◌, ◌≢◌, refl, sym, ◌∙◌, ◌==◌, Bool, true, false, Bool-cases, inl, inr, Option, Option-cases,
  none, some, if◌then◌else◌, Text, text_eq, text_eq_refl, text_eq→≡, [], ℕ, arith,
}
use schedbench.Store.{Files}
use schedbench.Store.Safe.{IsLawful, content}

abbrev pub Disk : Type 0
Disk = Text → Option Text

abbrev pub put : Text → Option Text → Disk → Disk
put a c d = λ x. if text_eq x a then c else d x

put_here : (a : Text) (c : Option Text) (d : Disk) → put a c d a ≡ c
put_here a c d = rw (text_eq_refl a) refl

put_other : (a x : Text) (c : Option Text) (d : Disk) → x ≢ a → put a c d x ≡ d x
put_other a x c d differs = elim (Bool-cases (text_eq x a)) [
  | inl same ↦ absurd (differs (text_eq→≡ x a same))
  | inr other ↦ rw other refl
]

abbrev read : Text → Disk → Option ℕ × Text
read a d = elim (d a) [ none ↦ (some 2, []) | some c ↦ (none, c) ]

abbrev write : Bool → Text → Text → Disk → Option ℕ × Disk
write true a bs d = (some 28, put a none d)
write false a bs d = (none, put a (some bs) d)

abbrev move : Text → Text → Disk → Option ℕ × Disk
move a b d = elim (d a) [ none ↦ (some 2, d) | some c ↦ (none, put b (some c) (put a none d)) ]

abbrev pub disk : Bool → Files
disk full = record {
  World = Disk;
  Err = ℕ;
  is_not_exist = λ e. e == 2;
  read_file = read;
  write_file = write full;
  rename = move;
  remove = λ a d. (none, put a none d);
}

content-disk : (full : Bool) (a : Text) (d : Disk) → content (disk full) a d ≡ d a
content-disk full a d = elim (Option-cases (d a)) [
  | inl gone ↦ ground (arith, gone)
  | inr (c, held) ↦ ground (arith, held)
]

move_fails : (a b : Text) (d : Disk) {e : ℕ} → (move a b d).0 ≡ some e → (move a b d).1 ≡ d
move_fails a b d h = elim (Option-cases (d a)) [
  | inl gone ↦ ground (arith, gone)
  | inr (c, held) ↦ absurd (ground (arith, held, h))
]

move_moves : (a b : Text) (d : Disk) → (move a b d).0 ≡ none → (move a b d).1 b ≡ d a
move_moves a b d h = elim (Option-cases (d a)) [
  | inl gone ↦ absurd (ground (arith, gone, h))
  | inr (c, held) ↦ ground (arith, held, text_eq_refl b)
]

write_done :
    (full : Bool) (a bs : Text) (d : Disk)
    → (write full a bs d).0 ≡ none
    → (write full a bs d).1 a ≡ some bs
write_done true a bs d h = cc
write_done false a bs d h = put_here a (some bs) d

write_other : (full : Bool) (a bs x : Text) (d : Disk) → x ≢ a → (write full a bs d).1 x ≡ d x
write_other true a bs x d differs = put_other a x none d differs
write_other false a bs x d differs = put_other a x (some bs) d differs

pub disk-IsLawful : (full : Bool) → IsLawful (disk full)
disk-IsLawful full = record {
  rename_fails = λ a b d h. move_fails a b d h;
  rename_moves = λ a b d h.
      content-disk full b (move a b d).1 ∙ move_moves a b d h ∙ sym (content-disk full a d);
  write_done = λ a bs d h. content-disk full a (write full a bs d).1 ∙ write_done full a bs d h;
  write_other = λ a bs c d differs.
      content-disk full c (write full a bs d).1
      ∙ write_other full a bs c d differs
      ∙ sym (content-disk full c d);
  remove_other = λ a c d differs.
      content-disk full c (put a none d)
      ∙ put_other a c none d differs
      ∙ sym (content-disk full c d);
}
