-- ===== src/Pulse/Laws.antt =====
-- What the display of cmd/pulse/main.go shows, and of which turns of observe.go's ticker.
use mathlib.Core.List.{reverse, reverse_aux}
use tobey.Common.{
  ℕ, suc, ◌+◌, ◌^◌, ◌<◌, ◌≡◌, ◌∙◌, refl, sym, ap, String, List, [], ◌∷◌, ◌++◌, map, All, arith,
  Bool-cases, inl, inr, ◌==◌, ◌||◌, string_eq,
}
use tobey.Common.Int.{ℤ, pos}
use tobey.Observe.{Pulse, beats, new_pulse}
use tobey.Observe.Laws.{Turn, all_beats, post_all, beats_posted}
use tobey.Pulse.{
  Widgets, Model, Msg, key, mouse, number, tick, other, Command, quit, nothing, wait_for_activity,
  of_widget, update, updates, receive, on_key,
}

module _ (x : Widgets) where
  abbrev pub last_number : List (Msg x) → ℤ → ℤ
  last_number [] v = v
  last_number (number u ∷ msgs) v = last_number msgs u
  last_number (msg ∷ msgs) v = last_number msgs v

  -- The messages after which the display waits for the next number.
  abbrev pub numbers : List (Msg x) → ℕ
  numbers [] = 0
  numbers (number u ∷ msgs) = suc (numbers msgs)
  numbers (msg ∷ msgs) = numbers msgs

  abbrev pub waits : List (Command x.Cmd) → ℕ
  waits [] = 0
  waits (wait_for_activity ∷ cmds) = suc (waits cmds)
  waits (cmd ∷ cmds) = waits cmds

  on_key-rps :
      (k : String) (m : Model x)
      → ((on_key x k m).0.rps ≡ m.rps) × (waits ((on_key x k m).1 ∷ []) ≡ 0)
  on_key-rps k m = elim (Bool-cases (k == "q" || k == "ctrl+c")) [
    | inl quits ↦ rw quits (refl, refl)
    | inr stays ↦ elim (Bool-cases (k == "r")) [
      | inl resets ↦ rw (stays, resets) (refl, refl)
      | inr forwards ↦ rw (stays, forwards) (refl, refl)
    ]
  ]

  update-rps :
      (msg : Msg x) (m : Model x)
      → ((update x msg m).0.rps ≡ last_number (msg ∷ []) m.rps)
        × (waits ((update x msg m).1 ∷ []) ≡ numbers (msg ∷ []))
  unfolding update
  update-rps (key k) m = on_key-rps k m
  update-rps (mouse e) m = (refl, refl)
  update-rps (number v) m = (refl, refl)
  update-rps (tick t) m = (refl, refl)
  update-rps other m = (refl, refl)

  one_more :
      (msg : Msg x) (msgs : List (Msg x)) (v : ℤ)
      → (last_number (msg ∷ msgs) v ≡ last_number msgs (last_number (msg ∷ []) v))
        × (numbers (msg ∷ msgs) ≡ numbers (msg ∷ []) + numbers msgs)
  one_more (key k) msgs v = (refl, omega arith)
  one_more (mouse e) msgs v = (refl, omega arith)
  one_more (number u) msgs v = (refl, omega arith)
  one_more (tick t) msgs v = (refl, omega arith)
  one_more other msgs v = (refl, omega arith)

  one_command :
      (cmd : Command x.Cmd) (cmds : List (Command x.Cmd))
      → waits (cmd ∷ cmds) ≡ waits (cmd ∷ []) + waits cmds
  one_command quit cmds = omega arith
  one_command nothing cmds = omega arith
  one_command wait_for_activity cmds = omega arith
  one_command (of_widget c) cmds = omega arith

  -- The display shows the last number that it received, if any, and each number, and nothing else,
  -- makes it wait for one more.
  pub updates_show :
      (msgs : List (Msg x)) (m : Model x)
      → ((updates x msgs m).0.rps ≡ last_number msgs m.rps)
        × (waits (updates x msgs m).1 ≡ numbers msgs)
  unfolding updates
  updates_show [] m = (refl, refl)
  updates_show (msg ∷ msgs) m =
      let (shown, waiting) = update-rps msg m in
      let (more, count) = one_more msg msgs m.rps in
      let (rest, later) = updates_show msgs (update x msg m).0 in
      (
        rest ∙ ap (last_number msgs) shown ∙ sym more,
        one_command (update x msg m).1 (updates x msgs (update x msg m).0).1
            ∙ ap (λ n. n + waits (updates x msgs (update x msg m).0).1) waiting
            ∙ ap (λ n. numbers (msg ∷ []) + n) later
            ∙ sym count,
      )

  module _ (atoi : String → ℤ) (itoa : ℤ → String) where
    -- What the display gets of a number that was posted.
    abbrev pub sent : ℤ → Msg x
    sent v = receive x atoi (itoa v)

    last_sent :
        (vs : List ℤ) (w : ℤ) (ws : List ℤ) (d e : ℤ)
        → last_number (map sent (reverse_aux vs (w ∷ ws))) d ≡ last_number (map sent (w ∷ ws)) e
    unfolding receive
    last_sent [] w ws d e = refl
    last_sent (v ∷ vs) w ws d e = last_sent vs v (w ∷ ws) d e

    last_posted :
        (ts : List Turn) (t : Turn) (posted : List ℤ)
        → post_all (ts ++ t ∷ []) posted ≡ pos t.0 ∷ post_all ts posted
    last_posted [] t posted = refl
    last_posted (u ∷ ts) t posted = last_posted ts t (pos u.0 ∷ posted)

    -- Where Atoi reads back what Itoa writes, and each turn of the ticker finds less than 2 ^ 31
    -- visits, the display shows the visits of the last turn once it has received all that was posted:
    -- those since the turn before, without the ones that were counted between a load and a store.
    pub shows_last_turn :
        (ts : List Turn) (t : Turn) (m : Model x)
        → ((v : ℤ) → atoi (itoa v) ≡ v)
        → All (λ u. u.0 < 2 ^ 31) (ts ++ t ∷ [])
        → (updates x
            (map sent (reverse (beats (all_beats (ts ++ t ∷ [])) new_pulse).posted))
            m).0.rps
          ≡ pos t.0
    unfolding receive
    shows_last_turn ts t m reads small =
        (updates_show _ m).0
        ∙ ap (λ (p : Pulse). last_number (map sent (reverse p.posted)) m.rps)
            (beats_posted (ts ++ t ∷ []) [] small)
        ∙ ap (λ vs. last_number (map sent (reverse vs)) m.rps) (last_posted ts t [])
        ∙ last_sent (post_all ts []) (pos t.0) [] m.rps m.rps
        ∙ reads (pos t.0)
