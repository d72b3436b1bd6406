-- ===== src/Html/Rows.antt =====
-- A point's row in the table of a chart.
use schedbench.Base.{
  if◌then◌else◌, Bool-cases, inl, inr, ltb, ℕ, zero, suc, ◌+◌, ◌-◌, ◌≤◌, ◌≡◌, refl, ◌∙◌, ap, true,
  false, List, [], ◌∷◌, ◌++◌, replicate, ◌==◌, codes, arith,
}
use schedbench.Summary.{Float}
use schedbench.Html.{Format, Point, Chunk, written, point_cells, point_json}

abbrev pub null_cell : Chunk
null_cell = written (codes ", null")

module _ {F E : Type 0} (fl : Float F) (fm : Format F E) (p : Point F) where
  abbrev pub value_cell : Chunk
  value_cell = written (codes ", " ++ fm.show_float p.y)

  abbrev pub row_start : Chunk
  row_start = written (codes "            [" ++ fm.show_float p.x)

  abbrev pub row_end : Chunk
  row_end = written (codes "],\n")

  beyond :
      (id rounds i : ℕ)
      → (i ≤ id → i + rounds ≤ id)
      → point_cells fl fm p id rounds i ≡ replicate rounds null_cell
  unfolding point_cells
  beyond id zero i h = refl
  beyond id (suc rounds) i h =
      let other : (i == id) ≡ false = ground (arith, h) in
      rw other (
        ap (λ l. null_cell ∷ l)
          (beyond id rounds (suc i) (λ below. omega (arith, h (omega arith)))))

  within :
      (k rest rounds i : ℕ)
      → rounds ≡ k + suc rest
      → point_cells fl fm p (i + k) rounds i
        ≡ replicate k null_cell ++ value_cell ∷ replicate rest null_cell
  unfolding point_cells
  within k rest zero i h = absurd (omega arith)
  within zero rest (suc rounds) i h =
      let here : (i == i + 0) ≡ true = ground arith in
      let same : rounds ≡ rest = omega arith in
      rw here (
        ap (λ l. value_cell ∷ l)
          (beyond (i + 0) rounds (suc i) (λ below. absurd (omega arith))
            ∙ ap (λ n. replicate n null_cell) same))
  within (suc k) rest (suc rounds) i h =
      let other : (i == i + suc k) ≡ false = ground arith in
      rw other (
        ap (λ l. null_cell ∷ l)
          (ap (λ id. point_cells fl fm p id rounds (suc i)) (omega arith)
            ∙ within k rest rounds (suc i) (omega arith)))

  -- `OutputJson` of a point prints its `x` and one cell for each of `max` series: the point's `y` in
  -- the cell of its own series and `null` in every other; a series that is not one of them gets no
  -- cell.
  pub point_json-row :
      (id max : ℕ)
      → point_json fl fm p id max
        ≡ row_start
            ∷ (if ltb id max
                then replicate id null_cell ++ value_cell ∷ replicate (max - suc id) null_cell
                else replicate max null_cell)
          ++ row_end ∷ []
  unfolding point_json
  point_json-row id max =
      let whole : List Chunk → List Chunk = λ cells. row_start ∷ cells ++ row_end ∷ [] in
      let from_zero : id ≡ 0 + id = omega arith in
      elim (Bool-cases (ltb id max)) [
        | inl own ↦ rw own (
            ap whole (
              ap (λ n. point_cells fl fm p n max 0) from_zero
              ∙ within id (max - suc id) max 0 (ground (arith, own))))
        | inr other ↦ rw other (ap whole (beyond id max 0 (λ below. ground (arith, other))))
      ]
