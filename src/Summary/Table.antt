-- ===== src/Summary/Table.antt =====
-- The map from ids to `Data`, as a table with each id once.
use schedbench.Base.{
  ◌≡◌, refl, ◌∙◌, false, [], ◌∷◌, none, some, if◌then◌else◌, Bool-cases, inl, inr, arith,
}
use schedbench.Bench.{WorkerId, id_eq}
use schedbench.Bench.Ids.{id_eq→≡, id_eq-cong}
use schedbench.Summary.{Data, Table, find_data, put_data}

pub find-put :
    (id i : WorkerId) (d : Data) (t : Table)
    → find_data id (put_data i d t) ≡ (if id_eq i id then some d else find_data id t)
unfolding find_data put_data
find-put id i d [] = refl
find-put id i d ((j, old) ∷ t) = elim (Bool-cases (id_eq j i)) [
  | inl hit ↦ rw (hit, id_eq-cong j i id hit) (ground arith)
  | inr miss ↦ elim (Bool-cases (id_eq i id)) [
    | inl here ↦
        let same : i ≡ id = id_eq→≡ i id here in
        let other : id_eq j id ≡ false = rw same at miss in
        rw (miss, other) (find-put id i d t ∙ ground arith)
    | inr there ↦ rw miss (ground (arith, find-put id i d t))
  ]
]

-- A map holds a key once.
abbrev pub HasUniqueIds : Table → Type 0
HasUniqueIds [] = Unit {0}
HasUniqueIds ((id, d) ∷ t) = (find_data id t ≡ none) × HasUniqueIds t

pub put-HasUniqueIds :
    (i : WorkerId) (d : Data) (t : Table) → HasUniqueIds t → HasUniqueIds (put_data i d t)
unfolding put_data find_data
put-HasUniqueIds i d [] u = (refl, tt)
put-HasUniqueIds i d ((j, old) ∷ t) u = elim (Bool-cases (id_eq j i)) [
  | inl hit ↦ rw hit u
  | inr miss ↦
      let apart : id_eq i j ≡ false = ground (arith, miss) in
      rw miss ((find-put j i d t ∙ ground (arith, apart, u.0)), put-HasUniqueIds i d t u.1)
]

-- An entry further down is found past the first, whose id is another.
pub find-tail :
    (i id : WorkerId) (d e : Data) (t : Table)
    → find_data i t ≡ none
    → find_data id t ≡ some e
    → find_data id ((i, d) ∷ t) ≡ some e
unfolding find_data
find-tail i id d e t u h = elim (Bool-cases (id_eq i id)) [
  | inl same ↦
      let one : i ≡ id = id_eq→≡ i id same in
      let gone : find_data id t ≡ none = rw one at u in absurd (ground (arith, gone, h))
  | inr other ↦ rw other h
]
