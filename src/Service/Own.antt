-- ===== src/Service/Own.antt =====
-- Whose reply a call of `execute` in qapi/src/futures/mod.rs is given.
pub mod Reading
pub mod Calls
use mathlib.Core.List.{Memᴰ}
use qapi_rs.Prelude.{
  ℕ, ◌+◌, ◌≤◌, ◌<◌, ◌≡◌, ◌≢◌, refl, sym, Bool, true, false, Option, none, some, List, [], ◌∷◌, ◌++◌,
  Outcome, ok, err, panic, arith, ◌==◌, if◌then◌else◌, if_split, ==_iff, subst,
}
use qapi_rs.Spec.{IoError, Response, result}
use qapi_rs.Futures.World.{
  World, CommandMap, Reply, Effect, created, sent, refused, dropped, registered, woken_stop,
  woken_self, effect, lookup, insert, remove, drop_all,
}
use qapi_rs.Futures.Shared
use qapi_rs.Futures.Shared.{command_insert, command_remove, release, service_stop, events_drop}
use qapi_rs.Futures.Events.{AnyOps, deliver}
use qapi_rs.Futures.Ownership.{Owned, held, settled, drop_all-settled}
use qapi_rs.Futures.Stable.{IsStableOn}
use qapi_rs.Service.{Received, delivered, cancelled}
use qapi_rs.Service.Stream.{receive}

-- The channel is in the table under no other id.
abbrev pub Under : ℕ → ℕ → CommandMap → Type 0
Under n ch [] = Unit
Under n ch ((k, c) ∷ m) = (c ≡ ch → k ≡ n) × Under n ch m

Under-remove : (n ch k : ℕ) (m : CommandMap) → Under n ch m → Under n ch (remove k m)
unfolding remove
Under-remove n ch k [] v = tt
Under-remove n ch k ((j, c) ∷ m) v = ground (arith, v.0, Under-remove n ch k m v.1)

Under-insert :
    (n ch k c : ℕ) (m : CommandMap) → (c ≡ ch → k ≡ n) → Under n ch m → Under n ch (insert k c m)
unfolding insert
Under-insert n ch k c [] h v = (h, tt)
Under-insert n ch k c ((j, d) ∷ m) h v = ground (arith, h, v.0, Under-insert n ch k c m h v.1)

Under-absent : (n ch : ℕ) (m : CommandMap) → held ch m ≡ 0 → Under n ch m
unfolding held
Under-absent n ch [] h = tt
Under-absent n ch ((k, d) ∷ m) h = ground (arith, Under-absent n ch m)

Under-lookup : (n ch k : ℕ) (m : CommandMap) → Under n ch m → lookup k m ≡ some ch → k ≡ n
unfolding lookup
Under-lookup n ch k [] v h = cc
Under-lookup n ch k ((j, c) ∷ m) v h = ground (arith, v.0, Under-lookup n ch k m v.1)

module _ {Any : Type 0} where
  -- Whatever was sent on the channel is among the replies, with that id.
  abbrev pub Came : List (ℕ × Reply Any) → ℕ → ℕ → List (Effect Any) → Type 0
  Came hs n ch [] = Unit
  Came hs n ch (sent c r ∷ log) = (c ≡ ch → Memᴰ (n, r) hs) × Came hs n ch log
  Came hs n ch (refused c r ∷ log) = Came hs n ch log
  Came hs n ch (dropped c ∷ log) = Came hs n ch log
  Came hs n ch (created c ∷ log) = Came hs n ch log
  Came hs n ch (registered ∷ log) = Came hs n ch log
  Came hs n ch (woken_stop ∷ log) = Came hs n ch log
  Came hs n ch (woken_self ∷ log) = Came hs n ch log

  Came-unsettled :
      (hs : List (ℕ × Reply Any)) (n ch : ℕ) (log : List (Effect Any))
      → settled ch log ≡ 0
      → Came hs n ch log
  unfolding settled
  Came-unsettled hs n ch [] h = tt
  Came-unsettled hs n ch (sent c r ∷ log) h =
      ((λ e. absurd (ground arith)), Came-unsettled hs n ch log (omega arith))
  Came-unsettled hs n ch (refused c r ∷ log) h = Came-unsettled hs n ch log (omega arith)
  Came-unsettled hs n ch (dropped c ∷ log) h = Came-unsettled hs n ch log (omega arith)
  Came-unsettled hs n ch (created c ∷ log) h = Came-unsettled hs n ch log h
  Came-unsettled hs n ch (registered ∷ log) h = Came-unsettled hs n ch log h
  Came-unsettled hs n ch (woken_stop ∷ log) h = Came-unsettled hs n ch log h
  Came-unsettled hs n ch (woken_self ∷ log) h = Came-unsettled hs n ch log h

  Came-more :
      (hs more : List (ℕ × Reply Any)) (n ch : ℕ) (log : List (Effect Any))
      → ((x : ℕ × Reply Any) → Memᴰ x hs → Memᴰ x more)
      → Came hs n ch log
      → Came more n ch log
  Came-more hs more n ch [] h v = tt
  Came-more hs more n ch (sent c r ∷ log) h v =
      ((λ e. h (n, r) (v.0 e)), Came-more hs more n ch log h v.1)
  Came-more hs more n ch (refused c r ∷ log) h v = Came-more hs more n ch log h v
  Came-more hs more n ch (dropped c ∷ log) h v = Came-more hs more n ch log h v
  Came-more hs more n ch (created c ∷ log) h v = Came-more hs more n ch log h v
  Came-more hs more n ch (registered ∷ log) h v = Came-more hs more n ch log h v
  Came-more hs more n ch (woken_stop ∷ log) h v = Came-more hs more n ch log h v
  Came-more hs more n ch (woken_self ∷ log) h v = Came-more hs more n ch log h v

  delivered_injective : (d r : Reply Any) → some (delivered d) ≡ some (delivered r) → d ≡ r
  delivered_injective d r e = cc

  pub Came-receive :
      (hs : List (ℕ × Reply Any)) (n ch : ℕ) (log : List (Effect Any)) (r : Reply Any)
      → Came hs n ch log
      → receive ch log ≡ some (delivered r)
      → Memᴰ (n, r) hs
  unfolding receive
  Came-receive hs n ch [] r v h = cc
  Came-receive hs n ch (sent c d ∷ log) r v h =
      if_split (λ o. o ≡ some (delivered r) → Memᴰ (n, r) hs) (c == ch)
        (λ e q. subst (λ x. Memᴰ (n, x) hs) (delivered_injective d r q) (v.0 ((==_iff c ch).0 e)))
        (λ e q. Came-receive hs n ch log r v.1 q) h
  Came-receive hs n ch (dropped c ∷ log) r v h =
      if_split (λ o. o ≡ some (delivered r) → Memᴰ (n, r) hs) (c == ch) (λ e q. cc)
        (λ e q. Came-receive hs n ch log r v q) h
  Came-receive hs n ch (refused c d ∷ log) r v h = Came-receive hs n ch log r v h
  Came-receive hs n ch (created c ∷ log) r v h = Came-receive hs n ch log r v h
  Came-receive hs n ch (registered ∷ log) r v h = Came-receive hs n ch log r v h
  Came-receive hs n ch (woken_stop ∷ log) r v h = Came-receive hs n ch log r v h
  Came-receive hs n ch (woken_self ∷ log) r v h = Came-receive hs n ch log r v h

  -- A call whose command has id `n` and channel `ch`: nothing else is under its channel, and if it
  -- was made at `start` or later, then what was sent on it is among the replies.
  pub record Own (start : ℕ) (hs : List (ℕ × Reply Any)) (n ch : ℕ) (w : World Any) : Type 0 where
    pub below : ch < w.next_channel
    pub under : Under n ch w.shared.commands.pending
    pub came : start ≤ ch → Came hs n ch w.log

  module _ (start : ℕ) (hs : List (ℕ × Reply Any)) (n ch : ℕ) where
    pub command_insert-Own :
        (id : ℕ) (w : World Any) → Own start hs n ch w → Own start hs n ch (command_insert id w).0
    unfolding command_insert
    command_insert-Own id w v = record {
      below = ground (arith, v.below);
      under =
          ground (
            arith,
            v.under,
            v.below,
            Under-insert n ch id w.next_channel w.shared.commands.pending,
          );
      came = λ l. ground (arith, v.came l);
    }

    pub release-Own : (w : World Any) → Own start hs n ch w → Own start hs n ch (release w).0
    unfolding release
    release-Own w v = record {
      below = ground (arith, v.below);
      under = ground (arith, v.under);
      came = λ l. ground (arith, v.came l);
    }

    pub service_stop-Own :
        (w : World Any) → Own start hs n ch w → Own start hs n ch (service_stop w).0
    unfolding service_stop Shared.stop
    service_stop-Own w v = record {
      below = ground (arith, v.below);
      under = ground (arith, v.under);
      came = λ l. ground (arith, v.came l);
    }

    drop_all-Came :
        (m : CommandMap) (w : World Any) → Came hs n ch w.log → Came hs n ch (drop_all m w).log
    unfolding drop_all
    drop_all-Came [] w v = v
    drop_all-Came ((k, c) ∷ m) w v = drop_all-Came m (effect (dropped c) w) v

    pub events_drop-Own :
        (w : World Any) → Own start hs n ch w → Own start hs n ch (events_drop w).0
    unfolding events_drop
    events_drop-Own w v =
        let m = w.shared.commands.pending in
        record {
          below = ground (arith, v.below, drop_all-settled ch m w);
          under = ground (arith, v.under);
          came = λ l. ground (arith, v.came l, drop_all-Came m w (v.came l));
        }

    -- The call that enters the table.
    pub command_insert-new :
        (w : World Any) → Owned w → w.next_channel ≡ ch → Own start hs n ch (command_insert n w).0
    unfolding command_insert
    command_insert-new w o e =
        let m = w.shared.commands.pending in
        let free : (settled ch w.log ≡ 0) × (held ch m ≡ 0) = ground (arith, o ch) in
        record {
          below = ground arith;
          under = ground (
            arith,
            Under-absent n ch m free.1,
            Under-insert n ch n ch m (λ q. refl) (Under-absent n ch m free.1),
          );
          came = λ l. ground (arith, Came-unsettled hs n ch w.log free.0);
        }

    module _ (ops : AnyOps Any) (alive : ℕ → Bool) where
      pub Own-IsStableOn :
          IsStableOn ops alive (λ k res. Memᴰ (k, result res) hs) (Own start hs n ch)
      unfolding deliver command_remove
      Own-IsStableOn = record {
        delivers = λ k res w a v.
            let m = w.shared.commands.pending in
            record {
              below = ground (arith, v.below);
              under = ground (arith, v.under, Under-remove n ch k m v.under);
              came = λ l. ground (arith, v.came l, Under-lookup n ch k m v.under, a);
            };
        wakes = λ w v. record { below = v.below; under = v.under; came = v.came };
        registers = λ w v. record { below = v.below; under = v.under; came = v.came };
        stops = λ w v. record { below = v.below; under = v.under; came = v.came };
      }
