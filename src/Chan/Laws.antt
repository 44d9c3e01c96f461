-- ===== src/Chan/Laws.antt =====
-- First in, first out, within the capacity.
use tobey.Common.{◌≤◌, ◌<◌, ◌≡◌, false, ◌++◌, [], ◌∷◌, arith, length, length-append}
use tobey.Chan.{Chan, sent, try_send, received, try_receive}

abbrev pub Fits {ℓ} : {A : Type ℓ} → Chan A → Type 0
Fits c = length c.buffer ≤ c.cap

module _ {ℓ} {A : Type ℓ} where
  pub try_send-Fits : (c d : Chan A) (v : A) → try_send c v ≡ sent d → Fits c → Fits d
  unfolding try_send
  try_send-Fits c d v e h = ground (arith, length-append c.buffer (v ∷ []))

  pub try_send-buffer :
      (c d : Chan A) (v : A) → try_send c v ≡ sent d → d.buffer ≡ c.buffer ++ v ∷ []
  unfolding try_send
  try_send-buffer c d v e = ground arith

  pub try_receive-buffer :
      (c d : Chan A) (v : A) → try_receive c ≡ received v d → c.buffer ≡ v ∷ d.buffer
  unfolding try_receive
  try_receive-buffer c d v e = ground arith

  pub try_receive-Fits : (c d : Chan A) (v : A) → try_receive c ≡ received v d → Fits c → Fits d
  unfolding try_receive
  try_receive-Fits c d v e h = ground arith

  pub try_send_of_room :
      (c : Chan A) (v : A)
      → c.closed ≡ false
      → length c.buffer < c.cap
      → try_send c v ≡ sent (record c { buffer = c.buffer ++ v ∷ [] })
  unfolding try_send
  try_send_of_room c v opened room = ground arith
