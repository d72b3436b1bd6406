-- ===== src/Run/Done.antt =====
-- Which workers of a run are done: what the number of `done`s says where no worker sends two.
use schedbench.Base.{
  ℕ, suc, ◌+◌, ◌≡◌, refl, ◌∙◌, ap, sym, Bool, true, false, not, ◌&&◌, ◌||◌, List, [], ◌∷◌, arith,
  if◌then◌else◌, ◌==◌, ltb, Bool-cases, inl, inr, length,
}
use schedbench.Base.Int.{ℤ}
use schedbench.Base.Outcome.{returns}
use schedbench.Bench.{WorkerId, id_eq}
use schedbench.Bench.Ids.{id_eq→≡}
use schedbench.Run.{Event, report, done, timeout, interrupt, Loop, waiting, finished, loop, ids}
use schedbench.Run.Results.{AllFrom, has_id}
use schedbench.Run.Ends.{IsUninterrupted, count_done, loop-stands_at}

-- The worker has sent `done`.
abbrev pub has_done : WorkerId → List Event → Bool
has_done id [] = false
has_done id (report r ∷ es) = has_done id es
has_done id (done did ∷ es) = id_eq id did || has_done id es
has_done id (timeout ∷ es) = has_done id es
has_done id (interrupt ∷ es) = has_done id es

-- Each worker has sent `done`.
abbrev pub all_done : List WorkerId → List Event → Bool
all_done [] es = true
all_done (j ∷ js) es = has_done j es && all_done js es

-- No worker sends `done` twice, as `Process` of a worker ends with it.
abbrev pub SendsDoneOnce : List Event → Type 0
SendsDoneOnce [] = Unit {0}
SendsDoneOnce (report r ∷ es) = SendsDoneOnce es
SendsDoneOnce (done did ∷ es) = (has_done did es ≡ false) × SendsDoneOnce es
SendsDoneOnce (timeout ∷ es) = SendsDoneOnce es
SendsDoneOnce (interrupt ∷ es) = SendsDoneOnce es

-- Each id stands in the list once.
abbrev pub HasOnce : List WorkerId → Type 0
HasOnce [] = Unit {0}
HasOnce (j ∷ js) = (has_id j js ≡ false) × HasOnce js

-- How many workers a test leaves out.
abbrev pending : List WorkerId → (WorkerId → Bool) → ℕ
pending [] f = 0
pending (j ∷ js) f = let rest = pending js f in if f j then rest else suc rest

pending-all_done :
    (js : List WorkerId) (es : List Event) → (pending js (λ j. has_done j es) == 0) ≡ all_done js es
pending-all_done [] es = refl
pending-all_done (j ∷ js) es = ground (arith, pending-all_done js es)

-- A worker that is not of the list changes nothing.
pending-other :
    (js : List WorkerId) (did : WorkerId) (f : WorkerId → Bool)
    → has_id did js ≡ false
    → pending js (λ j. id_eq j did || f j) ≡ pending js f
pending-other [] did f h = refl
pending-other (j ∷ js) did f h = ground (arith, h, pending-other js did f (ground (arith, h)))

-- A worker of the list that was not done is done now.
pending-done :
    (js : List WorkerId) (did : WorkerId) (f : WorkerId → Bool)
    → HasOnce js
    → has_id did js ≡ true
    → f did ≡ false
    → suc (pending js (λ j. id_eq j did || f j)) ≡ pending js f
pending-done [] did f once h new = absurd (ground arith)
pending-done (j ∷ js) did f (alone, once) h new = elim (Bool-cases (id_eq j did)) [
  | inl here ↦
      let one : j ≡ did = id_eq→≡ j did here in
      let gone : has_id did js ≡ false = ap (λ i. has_id i js) (sym one) ∙ alone in
      let not_yet : f j ≡ false = ap f one ∙ new in ground (arith, pending-other js did f gone)
  | inr other ↦ ground (arith, pending-done js did f once (ground (arith, h)) new)
]

-- Each `done` is of another worker.
count_done-pending :
    (js : List WorkerId) (es : List Event)
    → HasOnce js
    → AllFrom js es
    → SendsDoneOnce es
    → count_done es + pending js (λ j. has_done j es) ≡ length js
count_done-pending [] [] once from single = refl
count_done-pending (j ∷ js) [] once from single =
    omega (arith, count_done-pending js [] (once.1) tt tt)
count_done-pending js (report r ∷ es) once from single =
    count_done-pending js es once (from.1) single
count_done-pending js (done did ∷ es) once from single =
    let more = count_done-pending js es once (from.1) (single.1) in
    let new = pending-done js did (λ j. has_done j es) once (from.0) (single.0) in
    omega (arith, more, new)
count_done-pending js (timeout ∷ es) once from single = count_done-pending js es once from single
count_done-pending js (interrupt ∷ es) once from single = count_done-pending js es once from single

pub ltb-all_done :
    (js : List WorkerId) (es : List Event)
    → HasOnce js
    → AllFrom js es
    → SendsDoneOnce es
    → ltb (count_done es) (length js) ≡ not (all_done js es)
ltb-all_done js es once from single =
    let sum = count_done-pending js es once from single in
    let zero = pending-all_done js es in ground (arith, sum, zero)

-- With no interrupt, and events from its workers, none of which sends `done` twice, `Run` is back from
-- its loop exactly when each of its workers has sent `done`, and waits until then, also after the
-- timeout.
pub loop-all_done :
    {W : Type 0} (runtime : ℤ) (es : List Event) (s : Loop W)
    → s.left ≡ length (ids s.workers)
    → HasOnce (ids s.workers)
    → IsUninterrupted es
    → AllFrom (ids s.workers) es
    → SendsDoneOnce es
    → (u : Loop W) × (loop runtime es s
        ≡ returns (if all_done (ids s.workers) es then finished u else waiting u))
loop-all_done runtime es s whole once calm from single =
    let (u, ends) = loop-stands_at runtime es s calm from in
    let each = ltb-all_done (ids s.workers) es once from single in
    (u, ends ∙ ap returns (ground (arith, whole, each)))
