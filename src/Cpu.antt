-- ===== src/Cpu.antt =====
-- `getCpuHz` of controller/run.go: the frequency of the cpu, read once from /proc/cpuinfo and kept in
-- the global `CpukHZ`, which is 0 until then.
use schedbench.Base.{
  ◌⊎◌, ℕ, zero, suc, ap, ◌≡◌, ◌≢◌, List, [], ◌∷◌, Option, none, some, Option-cases, inl, inr, Text,
  if◌then◌else◌, ◌==◌, Bool-cases, arith,
}

-- What `getCpuHz` calls: opening the file and its lines, the regular expression
-- `^cpu MHz\s*: ([0-9.]+)$`, which gives its group, `strconv.ParseFloat`, and `uint64(MHZ*1000)`.
pub record CpuInfo (F E : Type 0) : Type 0 where
  pub open_error : Option E
  pub lines : List Text
  pub find_submatch : Text → Option Text
  pub parse_float : Text → Option E × F
  pub to_khz : F → ℕ

pub data CpuError (E : Type 0) : Type 0 where
  cannot_read cannot_parse : E → CpuError E
  no_frequency : CpuError E

module _ {F E : Type 0} (C : CpuInfo F E) where
  -- `for scanner.Scan()`, with `CpukHZ`.
  unfoldable pub scan : List Text → ℕ → Option (CpuError E) × ℕ
  scan [] khz = (none, khz)
  scan (s ∷ lines) khz = elim (C.find_submatch s) [
    | none ↦ scan lines khz
    | some m ↦
        let (err, mhz) = C.parse_float m in
        elim err [ some e ↦ (some (cannot_parse e), khz) | none ↦ (none, C.to_khz mhz) ]
  ]

  -- After the loop.
  abbrev pub scanned : Option (CpuError E) × ℕ → Option (CpuError E) × ℕ
  scanned (some e, khz) = (some e, khz)
  scanned (none, khz) = if khz == 0 then (some no_frequency, khz) else (none, khz)

  unfoldable pub get_cpu_hz : ℕ → Option (CpuError E) × ℕ
  unfolding scan
  get_cpu_hz khz =
      if khz == 0
      then (elim C.open_error [
        | some e ↦ (some (cannot_read e), khz)
        | none ↦ scanned (scan C.lines khz)
      ])
      else (none, khz)

  -- The first line that matches has `m` as its group.
  pub data IsFirst : List Text → Text → Type 0 where
    here :
        {s : Text} {lines : List Text} {m : Text}
        → C.find_submatch s ≡ some m
        → IsFirst (s ∷ lines) m
    later :
        {s : Text} {lines : List Text} {m : Text}
        → C.find_submatch s ≡ none
        → IsFirst lines m
        → IsFirst (s ∷ lines) m

  -- The frequency of the first line that matches.
  abbrev pub IsFrequency : List Text → ℕ → Type 0
  IsFrequency lines khz =
      (m : Text) × (mhz : F) × IsFirst lines m
      × (C.parse_float m ≡ (none, mhz))
      × (C.to_khz mhz ≡ khz)

  skipped :
      (s : Text) (lines : List Text) (khz : ℕ)
      → C.find_submatch s ≡ none
      → IsFrequency lines khz
      → IsFrequency (s ∷ lines) khz
  skipped s lines khz miss (m, mhz, first, parsed, same) = (m, mhz, later miss first, parsed, same)

  scan-IsFrequency :
      (lines : List Text) {khz : ℕ} → scan lines 0 ≡ (none, khz) → khz ≢ 0 → IsFrequency lines khz
  unfolding scan
  scan-IsFrequency [] h ne = absurd (ne (ground (arith, h)))
  scan-IsFrequency (s ∷ lines) {khz} h ne = elim (Option-cases (C.find_submatch s)) [
    | inl miss ↦ skipped s lines khz miss (scan-IsFrequency lines (rw (miss, scan) at h) ne)
    | inr (m, match) ↦ elim (Option-cases (C.parse_float m).0) [
      | inl fine ↦
          (m, (C.parse_float m).1, here match, ground (arith, fine), ground (arith, h, match, fine))
      | inr (e, bad) ↦ absurd (ground (arith, h, match, bad))
    ]
  ]

  known : (khz : ℕ) → khz ≢ 0 → get_cpu_hz khz ≡ (none, khz)
  unfolding get_cpu_hz
  known khz ne = ground (arith, ne)

  fresh : (get_cpu_hz 0).0 ≡ none → ((get_cpu_hz 0).1 ≢ 0) × IsFrequency C.lines (get_cpu_hz 0).1
  unfolding get_cpu_hz
  fresh h = elim (Option-cases C.open_error) [
    | inr (e, bad) ↦ absurd (ground (arith, h, bad))
    | inl opened ↦ elim (Option-cases (scan C.lines 0).0) [
      | inr (e, bad) ↦ absurd (ground (arith, h, opened, bad))
      | inl fine ↦
          let out : get_cpu_hz 0 ≡ scanned (none, (scan C.lines 0).1) =
            rw (opened, get_cpu_hz) (ap scanned (ap (λ e. (e, (scan C.lines 0).1)) fine)) in
          elim (Bool-cases ((scan C.lines 0).1 == 0)) [
            | inl nothing ↦ absurd (ground (arith, h, out, nothing))
            | inr some_khz ↦
                let ne : (scan C.lines 0).1 ≢ 0 = ground (arith, some_khz) in
                let same : (get_cpu_hz 0).1 ≡ (scan C.lines 0).1 = ground (arith, out, some_khz) in
                rw same (ne, scan-IsFrequency C.lines (ap (λ e. (e, (scan C.lines 0).1)) fine) ne)
          ]
    ]
  ]

  -- After a `getCpuHz` that reports no error `CpukHZ` is not 0, and a second call keeps it. It is what
  -- it was, or the frequency on the first line of the file that matches.
  pub get_cpu_hz-IsFrequency :
      (khz : ℕ)
      → (get_cpu_hz khz).0 ≡ none
      → let khz' = (get_cpu_hz khz).1 in
        (khz' ≢ 0) × (get_cpu_hz khz' ≡ (none, khz')) × ((khz ≡ khz') ⊎ IsFrequency C.lines khz')
  unfolding get_cpu_hz
  get_cpu_hz-IsFrequency zero h =
      let (ne, first) = fresh h in (ne, known (get_cpu_hz 0).1 ne, inr first)
  get_cpu_hz-IsFrequency (suc k) h = (ground arith, ground arith, inl (ground arith))
