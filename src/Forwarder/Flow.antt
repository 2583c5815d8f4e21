-- ===== src/Forwarder/Flow.antt =====
-- How the calls of a forward follow one another: the callbacks that the host makes for the promises
-- that a call has left behind.
pub mod Log
pub mod Steps
pub mod Token
pub mod Native
use aurora_forwarder_contrac.Base.{
  ℕ, ◌≡◌, Option, none, some, List, [], ◌∷◌, map, Bytes, codes, get_elem?,
}
use aurora_forwarder_contrac.Forwarder.Contract.Exports.{Entry}
use aurora_forwarder_contrac.Forwarder.Host.Machine.{Promise, call, callback, joined, batch}
use aurora_forwarder_contrac.Forwarder.Promise.{PromiseResult}
use aurora_forwarder_contrac.Forwarder.Safety.{Call}

-- The name under which the contract exports an entry point.
abbrev pub name : Entry → Bytes
name Entry.new = codes "new"
name Entry.forward = codes "forward"
name Entry.calculate_fees_callback = codes "calculate_fees_callback"
name Entry.finish_forward_callback = codes "finish_forward_callback"
name Entry.destroy = codes "destroy"

-- The results that a callback on this promise gets, where `results` says how each promise ended: a
-- joined promise has one for each of its parts.
abbrev pub answers : (ℕ → PromiseResult) → ℕ → Option Promise → List PromiseResult
answers results n none = []
answers results n (some (call _ _ _ _ _)) = results n ∷ []
answers results n (some (callback _ _ _ _ _ _)) = results n ∷ []
answers results n (some (joined ids)) = map results ids
answers results n (some (batch _)) = results n ∷ []

-- The call is the one that the host makes for a callback on the account `self`, which scheduled it.
abbrev pub Delivers : (ℕ → PromiseResult) → List Promise → Bytes → Option Promise → Call → Type 0
Delivers results log self (some (callback n account method args amount gas)) c =
    (account ≡ self)
    × (name c.entry ≡ method)
    × (c.predecessor ≡ self)
    × (c.input_bytes ≡ args)
    × (c.deposit ≡ amount)
    × (c.results ≡ answers results n (get_elem? log n))
Delivers results log self (some (call _ _ _ _ _)) c = ⊥
Delivers results log self (some (joined _)) c = ⊥
Delivers results log self (some (batch _)) c = ⊥
Delivers results log self none c = ⊥

-- The call is made for promise number `k`.
abbrev pub IsDelivery : (ℕ → PromiseResult) → List Promise → Bytes → ℕ → Call → Type 0
IsDelivery results log self k c = Delivers results log self (get_elem? log k) c
