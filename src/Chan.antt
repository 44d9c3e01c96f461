-- ===== src/Chan.antt =====
-- Go's buffered channels, as the work queue uses them: sends and receives that never block.
pub mod Laws
use tobey.Common.{
  ℕ, ◌++◌, List, [], ◌∷◌, Bool, true, false, Option, none, some, length, ltb, if◌then◌else◌,
}

-- `buffer` holds the oldest value first; `cap` is the argument of `make`.
pub record Chan {ℓ} (A : Type ℓ) : Type ℓ where
  pub buffer : List A
  pub cap : ℕ
  pub closed : Bool

abbrev pub make {ℓ} : {A : Type ℓ} → ℕ → Chan A
make cap = record { buffer = []; cap = cap; closed = false }

-- What `select { case c <- v: default: }` does: a send on a closed channel panics.
pub data Sent {ℓ} (A : Type ℓ) : Type ℓ where
  sent : Chan A → Sent A
  full : Sent A
  send_panics : Sent A

unfoldable pub try_send {ℓ} : {A : Type ℓ} → Chan A → A → Sent A
try_send c v =
    if c.closed
    then send_panics
    else if ltb (length c.buffer) c.cap
    then sent (record c { buffer = c.buffer ++ v ∷ [] })
    else full

-- What `select { case v := <-c: default: }` does: a closed channel that is drained yields the
-- zero value of its type, again and again.
pub data Received {ℓ} (A : Type ℓ) : Type ℓ where
  received : A → Chan A → Received A
  zero_value : Received A
  nothing : Received A

receive_from {ℓ} : {A : Type ℓ} → List A → Chan A → Received A
receive_from [] c = if c.closed then zero_value else nothing
receive_from (v ∷ rest) c = received v (record c { buffer = rest })

unfoldable pub try_receive {ℓ} : {A : Type ℓ} → Chan A → Received A
unfolding receive_from
try_receive c = receive_from c.buffer c

abbrev pub close {ℓ} : {A : Type ℓ} → Chan A → Chan A
close c = record c { closed = true }
