-- ===== src/Summary/Ranges.antt =====
-- The range of the rates that `MinMax.Update` has been given.
use schedbench.Base.{
  ◌≡◌, refl, sym, ◌∙◌, subst, ◌⊎◌, Bool, true, false, List, [], ◌∷◌, if◌then◌else◌, inl, inr, arith,
}
use schedbench.Bench.{MinMax}
use schedbench.Summary.{Float, update, zero_min_max}

module _ {F : Type 0} (fl : Float F) where
  open fl use {zero, lt, eq}

  abbrev pub Positive : F → Type 0
  Positive x = lt zero x ≡ true

  infix 50 ◌≼◌
  abbrev pub ◌≼◌ : F → F → Type 0
  x ≼ y = lt y x ≡ false

  -- What holds of `<` and `==` on `float64`, NaN included: `x ≼ y` is that `y < x` does not hold, and
  -- only a number is equal to itself.
  pub record IsOrdered : Type 0 where
    pub le_refl : (x : F) → x ≼ x
    pub le_trans : (x y z : F) → eq y y ≡ true → x ≼ y → y ≼ z → x ≼ z
    pub le_of_lt : (x y : F) → lt x y ≡ true → x ≼ y
    pub zero_eq : eq zero zero ≡ true
    pub num_of_pos : (x : F) → Positive x → eq x x ≡ true
    pub pos_ne : (x : F) → Positive x → eq x zero ≡ false

  abbrev pub update_all : List F → MinMax F → MinMax F
  update_all [] mm = mm
  update_all (x ∷ xs) mm = update_all xs (update fl x mm)

  abbrev pub AllPositive : List F → Type 0
  AllPositive [] = Unit {0}
  AllPositive (x ∷ xs) = Positive x × AllPositive xs

  abbrev pub Within : MinMax F → List F → Type 0
  Within mm [] = Unit {0}
  Within mm (x ∷ xs) = (mm.min ≼ x) × (x ≼ mm.max) × Within mm xs

  abbrev pub IsIn : F → List F → Type 0
  IsIn x [] = ⊥
  IsIn x (y ∷ ys) = (x ≡ y) ⊎ IsIn x ys

  module _ (laws : IsOrdered) where
    -- A range that has begun goes on with one more value.
    record Widens (xs : List F) (mm out : MinMax F) : Type 0 where
      pub down : out.min ≼ mm.min
      pub up : mm.max ≼ out.max
      pub within : Within out xs
      pub min_in : (out.min ≡ mm.min) ⊎ IsIn out.min xs
      pub max_in : (out.max ≡ mm.max) ⊎ IsIn out.max xs

    abbrev next_range : F → MinMax F → MinMax F
    next_range x mm = record {
      min = if lt x mm.min then x else mm.min;
      max = if lt mm.max x then x else mm.max;
    }

    update_begun : (x : F) (mm : MinMax F) → Positive mm.min → update fl x mm ≡ next_range x mm
    unfolding update
    update_begun x mm pm = ground (arith, laws.pos_ne mm.min pm)

    -- One end of the range, with the test that moves it.
    new_min :
        (x m : F) (b : Bool)
        → lt x m ≡ b
        → Positive x
        → Positive m
        → let m' = if b then x else m in
          Positive m' × (m' ≼ m) × (m' ≼ x) × ((m' ≡ m) ⊎ IsIn m' (x ∷ []))
    new_min x m true h px pm = (px, laws.le_of_lt x m h, laws.le_refl x, inr (inl refl))
    new_min x m false h px pm = (pm, laws.le_refl m, h, inl refl)

    new_max :
        (x m : F) (b : Bool)
        → lt m x ≡ b
        → Positive x
        → Positive m
        → let m' = if b then x else m in
          Positive m' × (m ≼ m') × (x ≼ m') × ((m' ≡ m) ⊎ IsIn m' (x ∷ []))
    new_max x m true h px pm = (px, laws.le_of_lt m x h, laws.le_refl x, inr (inl refl))
    new_max x m false h px pm = (pm, laws.le_refl m, h, inl refl)

    -- An end of the last range is where it was, or one of the values.
    end-IsIn :
        (r m m0 x : F) (xs : List F)
        → (r ≡ m) ⊎ IsIn r xs
        → (m ≡ m0) ⊎ IsIn m (x ∷ [])
        → (r ≡ m0) ⊎ IsIn r (x ∷ xs)
    end-IsIn r m m0 x xs (inr later) first = inr (inr later)
    end-IsIn r m m0 x xs (inl same) (inl old) = inl (same ∙ old)
    end-IsIn r m m0 x xs (inl same) (inr (inl new)) = inr (inl (same ∙ new))
    end-IsIn r m m0 x xs (inl same) (inr (inr no_more)) = absurd no_more

    update_all-Widens :
        (xs : List F) (mm : MinMax F)
        → AllPositive xs
        → Positive mm.min
        → Positive mm.max
        → Widens xs mm (update_all xs mm)
    update_all-Widens [] mm all pm px = record {
      down = laws.le_refl mm.min;
      up = laws.le_refl mm.max;
      within = tt;
      min_in = inl refl;
      max_in = inl refl;
    }
    update_all-Widens (x ∷ xs) mm (px, all) pm pn =
        let (pm', down', below, lo) = new_min x mm.min (lt x mm.min) refl px pm in
        let (pn', up', above, hi) = new_max x mm.max (lt mm.max x) refl px pn in
        let mm' : MinMax F = next_range x mm in
        let rest = update_all-Widens xs mm' all pm' pn' in
        let out : MinMax F = update_all xs mm' in
        let wide : Widens (x ∷ xs) mm out = record {
          down = laws.le_trans out.min mm'.min mm.min (laws.num_of_pos mm'.min pm') rest.down down';
          up = laws.le_trans mm.max mm'.max out.max (laws.num_of_pos mm'.max pn') up' rest.up;
          within = (
            laws.le_trans out.min mm'.min x (laws.num_of_pos mm'.min pm') rest.down below,
            laws.le_trans x mm'.max out.max (laws.num_of_pos mm'.max pn') above rest.up,
            rest.within,
          );
          min_in = end-IsIn out.min mm'.min mm.min x xs rest.min_in lo;
          max_in = end-IsIn out.max mm'.max mm.max x xs rest.max_in hi;
        } in
        subst (λ m. Widens (x ∷ xs) mm (update_all xs m)) (sym (update_begun x mm pm)) wide

    -- From a new `MinMax`, after `Update` with one or more values above 0, `Min` and `Max` are two of
    -- the values, and every value lies between them, where `<` and `==` behave as on `float64`.
    pub update_all-range :
        (x : F) (xs : List F)
        → AllPositive (x ∷ xs)
        → let mm = update_all (x ∷ xs) (zero_min_max fl) in
          Within mm (x ∷ xs) × IsIn mm.min (x ∷ xs) × IsIn mm.max (x ∷ xs)
    unfolding update
    update_all-range x xs (px, all) =
        let mm : MinMax F = record { min = x; max = x } in
        let first : update fl x (zero_min_max fl) ≡ mm = ground (arith, px, laws.zero_eq) in
        let rest = update_all-Widens xs mm all px px in
        let out : MinMax F = update_all xs mm in
        subst
          (λ m.
            let out = update_all xs m in
            Within out (x ∷ xs) × IsIn out.min (x ∷ xs) × IsIn out.max (x ∷ xs))
          (sym first) ((rest.down, rest.up, rest.within), rest.min_in, rest.max_in)
