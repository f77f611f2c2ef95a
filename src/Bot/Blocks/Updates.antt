-- ===== src/Bot/Blocks/Updates.antt =====
-- About the two blocks of the last updates and each callback.
use compound_liquidation.Prelude.{
  String, refl, ap, ◌≡◌, ◌⊎◌, inl, inr, true, false, List, [], ◌∷◌, keys, arith, Result, ok, err,
  update_all, Dict, Bool-cases,
}
use compound_liquidation.Prelude.Int.{ℤ, pos, ◌+ℤ◌, ◌≤ℤ◌, parts_of_eq, ltb_ℤ}
use compound_liquidation.Prelude.Float.{Floats}
use compound_liquidation.Prelude.Exec.{Exec, each, bind-holds, lift, ◌>>=◌}
use compound_liquidation.Prelude.Keeps.{Keeps, Keeps-bind, Keeps-pure, Keeps-reads, Keeps-each}
use compound_liquidation.Chain.{Eth, LogReceipt}
use compound_liquidation.Chain.Light.{LogReceiptLight, converter}
use compound_liquidation.Chain.Blocks.{IsAt, converter-IsAt}
use compound_liquidation.Comet.Update.{block-update}
use compound_liquidation.Users.HighProfit.Kept.{high_block, high_block-update}
use compound_liquidation.Bot.{World, Outside, on_high, updates, health_of, users_trimming_wrap}
use compound_liquidation.Bot.Logs.{recalculate, take_logs, users_subscribe_callback}
use compound_liquidation.Bot.Feeds.{update_comet, comet_subscribe_callback}
use compound_liquidation.Bot.Blocks.Parts.{
  KeepsBlocks, blocks-write, blocks-reload, blocks-sync_plug_in, blocks-add_user,
}

module _ {F : Type 0} ⦃fl : Floats F⦄ where
  block-updates :
      (eth : Eth) (users : Dict ℤ) (logs : List LogReceipt)
      → Keeps high_block (updates {F = F} eth users logs)
  unfolding updates
  block-updates eth users [] = Keeps-pure users
  block-updates eth users (log ∷ logs) =
      Keeps-bind (high_block-update eth log)
        (λ temp. block-updates eth (update_all users temp) logs)

  pub blocks-recalculate :
      (now : ℤ) (users : List String) → KeepsBlocks (recalculate {F = F} now users)
  unfolding recalculate
  blocks-recalculate now users = Keeps-bind (Keeps-reads (health_of now users)) (λ results.
      Keeps-bind (Keeps-reads (users_trimming_wrap users (now +ℤ pos 86400) false)) (λ target.
        Keeps-bind (blocks-write results) (λ _.
          Keeps-bind (Keeps-reads (users_trimming_wrap target (now +ℤ pos 86400) true))
            (λ near. Keeps-each blocks-add_user near))))

  abbrev pub IsLater : World F → World F → Type 0
  IsLater w v =
      (w.states.last_update ≤ℤ v.states.last_update) × (w.comet.last_update ≤ℤ v.comet.last_update)

  pub IsLater-keeps :
      {A : Type 0} {m : Exec (World F) A} (w : World F) → KeepsBlocks m → IsLater w (m w).1
  IsLater-keeps {A} {m} w h =
      let same = Keeps.at h w in
      (
        omega (arith, parts_of_eq (ap (λ b. b.0.0) same)),
        omega (arith, parts_of_eq (ap (λ b. b.0.1) same)),
      )

  IsLater-lift :
      {A : Type 0} (r : Result A) (f : A → Exec (World F) (Unit {0})) (w : World F)
      → ((a : A) → r ≡ ok a → IsLater w (f a w).1)
      → IsLater w ((lift r >>= f) w).1
  IsLater-lift (ok a) f w h = h a refl
  IsLater-lift (err e) f w h = omega arith

  module _ (out : Outside F) where
    take_logs-block :
        (now : ℤ) (response : LogReceiptLight) (logs : List LogReceipt) (w : World F)
        → let v = (take_logs out now response logs w).1 in
          ((v.states.last_update ≡ w.states.last_update)
            ⊎ (v.states.last_update ≡ response.block_number))
          × (v.comet.last_update ≡ w.comet.last_update)
    unfolding take_logs
    take_logs-block now response logs w =
        let first = block-updates (Outside.eth out) [] logs in
        let s = (updates (Outside.eth out) [] logs (w.states, w.high)).1 in
        let v = record w {
          states = record s.0 {
            last_update = response.block_number;
            block_hash = response.block_hash;
          };
          high = s.1;
        } in
        let rest = λ (users : Dict ℤ).
          Keeps.at
            (Keeps-bind (Keeps-each (blocks-reload out) (keys users)) (λ _.
              Keeps-bind (blocks-recalculate now (keys users)) (λ _. blocks-sync_plug_in out)))
            v in
        bind-holds
          (λ v.
            ((v.states.last_update ≡ w.states.last_update)
              ⊎ (v.states.last_update ≡ response.block_number))
            × (v.comet.last_update ≡ w.comet.last_update))
          (on_high (updates (Outside.eth out) [] logs)) _ w
          (inl (Keeps.at first (w.states, w.high)), refl)
          (λ users. (inr (ap (λ b. b.0.0) (rest users)), ap (λ b. b.0.1) (rest users)))

    pub IsLater-user_logs :
        (now : ℤ) (response : LogReceiptLight) (w : World F)
        → IsLater w (users_subscribe_callback out now response w).1
    unfolding users_subscribe_callback
    IsLater-user_logs now response w =
        IsLater-lift (converter (Outside.eth out) response) _ w (λ logs e.
          elim (Bool-cases (ltb_ℤ response.block_number w.states.last_update)) [
            | inl old ↦ rw old (omega arith)
            | inr new ↦ rw new (ground (arith, take_logs-block now response logs w))
          ])

  module _ (out : Outside F) where
    comet-loop :
        (n start : ℤ) (logs : List LogReceipt) (w : World F)
        → IsAt n logs
        → (w.comet.last_update ≡ start) ⊎ (w.comet.last_update ≡ n)
        → let v = (each (update_comet out) logs w).1 in
          (v.states.last_update ≡ w.states.last_update)
          × ((v.comet.last_update ≡ start) ⊎ (v.comet.last_update ≡ n))
    unfolding each
    comet-loop n start [] w h k = (refl, k)
    comet-loop n start (log ∷ logs) w h k =
        let w' = (update_comet out log w).1 in
        let k' : (w'.comet.last_update ≡ start) ⊎ (w'.comet.last_update ≡ n) =
          ground (arith, block-update (Outside.eth out) log w.comet) in
        bind-holds
          (λ v.
            (v.states.last_update ≡ w.states.last_update)
            × ((v.comet.last_update ≡ start) ⊎ (v.comet.last_update ≡ n)))
          (update_comet out log) (λ _. each (update_comet out) logs) w (refl, k')
          (λ _. comet-loop n start logs w' h.1 k')

    pub IsLater-comet_logs :
        (response : LogReceiptLight) (w : World F)
        → IsLater w (comet_subscribe_callback out response w).1
    unfolding comet_subscribe_callback
    IsLater-comet_logs response w =
        IsLater-lift (converter (Outside.eth out) response) _ w (λ logs e.
          elim (Bool-cases (ltb_ℤ response.block_number w.comet.last_update)) [
            | inl old ↦ rw old (omega arith)
            | inr new ↦ rw new (
                let (same, moved) =
                  comet-loop response.block_number w.comet.last_update logs w
                    (converter-IsAt (Outside.eth out) response logs e) (inl refl) in
                bind-holds (IsLater w) (each (update_comet out) logs) _ w (ground arith)
                  (λ _. ground arith))
          ])
