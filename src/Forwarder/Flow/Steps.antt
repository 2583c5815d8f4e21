-- ===== src/Forwarder/Flow/Steps.antt =====
-- The log of a run of calls, and the deliveries of the promises in it.
use aurora_forwarder_contrac.Base.{
  ℕ, ◌+◌, ◌≡◌, ◌∙◌, ap, refl, Option, some, List, [], ◌∷◌, ◌++◌, append_assoc, Bytes, codes, length,
  get_elem?, get_elem?-append, ok, err, Panic, arith,
}
use mathlib.Core.Path.{subst}
use aurora_forwarder_contrac.Base.Results.{Outcome}
use aurora_forwarder_contrac.Crates.{Crates}
use aurora_forwarder_contrac.Forwarder.Contract.{enter}
use aurora_forwarder_contrac.Forwarder.Contract.Exports.{Entry}
use aurora_forwarder_contrac.Forwarder.Contract.Spec.{Schedules}
use aurora_forwarder_contrac.Forwarder.Flow.{IsDelivery, Delivers, answers, name}
use aurora_forwarder_contrac.Forwarder.Host.Machine.{Machine, machine, Promise, call}
use aurora_forwarder_contrac.Forwarder.Promise.{PromiseResult}
use aurora_forwarder_contrac.Forwarder.Safety.{Call, receive, settle}

-- The state after one call.
abbrev pub after : Crates → Machine → Call → Machine
after lib m c = settle m (enter machine lib c.entry (receive c m))

abbrev first : Bytes → ℕ
first [] = 0
first (c ∷ _) = c

-- Only one entry point has each name.
pub name-fees :
    (e : Entry) → name e ≡ codes "calculate_fees_callback" → e ≡ Entry.calculate_fees_callback
name-fees Entry.calculate_fees_callback h = refl
name-fees Entry.new h = absurd (omega (arith, ap length h))
name-fees Entry.forward h = absurd (omega (arith, ap length h))
name-fees Entry.finish_forward_callback h = absurd (omega (arith, ap first h))
name-fees Entry.destroy h = absurd (omega (arith, ap length h))

pub name-finish :
    (e : Entry) → name e ≡ codes "finish_forward_callback" → e ≡ Entry.finish_forward_callback
name-finish Entry.finish_forward_callback h = refl
name-finish Entry.new h = absurd (omega (arith, ap length h))
name-finish Entry.forward h = absurd (omega (arith, ap length h))
name-finish Entry.calculate_fees_callback h = absurd (omega (arith, ap first h))
name-finish Entry.destroy h = absurd (omega (arith, ap length h))

pub name-new : (e : Entry) → name e ≡ codes "new" → e ≡ Entry.new
name-new Entry.new h = refl
name-new Entry.forward h = absurd (omega (arith, ap length h))
name-new Entry.calculate_fees_callback h = absurd (omega (arith, ap length h))
name-new Entry.finish_forward_callback h = absurd (omega (arith, ap length h))
name-new Entry.destroy h = absurd (omega (arith, ap length h))

-- A call that goes through leaves its promises in the log, and what is known of both.
pub settle-ok : (m : Machine) (o : Outcome (Unit {0}) × Machine) → o.0 ≡ ok tt → settle m o ≡ o.1
settle-ok m (ok _, m') h = refl
settle-ok m (err _, m') h = cc

-- A call that panics leaves nothing behind.
pub settle-err :
    {p : Panic} (m : Machine) (o : Outcome (Unit {0}) × Machine) → o.0 ≡ err p → settle m o ≡ m
settle-err m (err _, m') h = refl
settle-err m (ok _, m') h = absurd cc

pub after-Schedules :
    (lib : Crates) (m : Machine) (c : Call) (ps : List Promise) (back : ℕ)
    → Schedules (receive c m) ps [] back (enter machine lib c.entry (receive c m))
    → (after lib m c).promises ≡ m.promises ++ ps
after-Schedules lib m c ps back h =
    ap (λ (m' : Machine). m'.promises) (settle-ok m (enter machine lib c.entry (receive c m)) h.0)
    ∙ h.1

-- The promise that was scheduled behind the others.
pub scheduled_at :
    (log ps : List Promise) (i : ℕ) {log' : List Promise}
    → log' ≡ log ++ ps
    → get_elem? log' (length log + i) ≡ get_elem? ps i
scheduled_at log ps i e =
    ap (λ (l : List Promise). get_elem? l (length log + i)) e ∙ get_elem?-append log ps i

-- What is scheduled behind the others stays there when more is scheduled.
pub behind :
    {log' : List Promise} (log ps qs : List Promise)
    → log' ≡ log ++ ps
    → log' ++ qs ≡ log ++ (ps ++ qs)
behind log ps qs e = ap (λ (l : List Promise). l ++ qs) e ∙ append_assoc log ps qs

-- A delivery of a promise that was scheduled behind the others.
pub delivered :
    {p : Promise} {log' : List Promise} (results : ℕ → PromiseResult) (self : Bytes) (c : Call)
    (log ps : List Promise) (i : ℕ)
    → log' ≡ log ++ ps
    → get_elem? ps i ≡ some p
    → IsDelivery results log' self (length log + i) c
    → Delivers results log' self (some p) c
delivered {log'} results self c log ps i e found =
    subst (λ (o : Option Promise). Delivers results log' self o c) (scheduled_at log ps i e ∙ found)

-- The answer to a call that was scheduled behind the others.
pub answer_of :
    {a f x : Bytes} {amount gas : ℕ} {log' : List Promise} (results : ℕ → PromiseResult)
    (log ps : List Promise) (i k : ℕ)
    → k ≡ length log + i
    → log' ≡ log ++ ps
    → get_elem? ps i ≡ some (call a f x amount gas)
    → answers results k (get_elem? log' k) ≡ results k ∷ []
answer_of {log'} results log ps i k same e found =
    ap (answers results k) (ap (get_elem? log') same ∙ scheduled_at log ps i e ∙ found)
