-- ===== src/Base/Threads.antt =====
-- Threads that take turns: each is a state of its own, and one of them acts at a time on what they
-- share.
use Prim.Native.Nat.{ℕ, zero, suc, ◌+◌, ◌≤◌, ◌<◌}
use mathlib.Core.Path.{◌≡◌, refl, sym, ap, subst}
use mathlib.Core.List.{List, [], ◌∷◌}
use native.Mathlib.Omega.{arith}
use exectos.Base.Lists.{length}

module _ {S T : Type 0} where
  -- The thread `k` acts, if there is one.
  unfoldable pub act_at : (S → T → S × T) → S → ℕ → List T → S × List T
  act_at act s k [] = (s, [])
  act_at act s zero (t ∷ ts) = let done = act s t in (done.0, done.1 ∷ ts)
  act_at act s (suc k) (t ∷ ts) = let done = act_at act s k ts in (done.0, t ∷ done.1)

module _ {T : Type 0} where
  abbrev pub total : (T → ℕ) → List T → ℕ
  total weight [] = 0
  total weight (t ∷ ts) = weight t + total weight ts

  abbrev pub AllThreads : (T → Type 0) → List T → Type 0
  AllThreads P [] = Unit
  AllThreads P (t ∷ ts) = P t × AllThreads P ts

  pub total-le :
      (weight : T → ℕ) → ((t : T) → weight t ≤ 1) → (ts : List T) → total weight ts ≤ length ts
  total-le weight h [] = omega arith
  total-le weight h (t ∷ ts) = omega (arith, h t, total-le weight h ts)

pub zero_plus : (a : ℕ) → 0 + a ≡ a
zero_plus a = omega arith

add_skip : (a b c : ℕ) → a + (b + c) ≡ (a + c) + b
add_skip a b c = omega arith

add_next : (a b c : ℕ) → a + (b + c) ≡ (a + b) + c
add_next a b c = omega arith

-- What is shared is in order for the threads whose weight is counted, `Sound`, and so is each of
-- them, `P`. An action that keeps this whatever the other threads are keeps it for all.
module _ {S T : Type 0} (weight : T → ℕ) (P : T → Type 0) (Sound : S → ℕ → Type 0) where
  abbrev pub Keeps : ℕ → (S → T → S × T) → Type 0
  Keeps most act =
      (s : S) (t : T) (others : ℕ)
      → P t
      → others < most
      → Sound s (others + weight t)
      → Sound (act s t).0 (others + weight (act s t).1) × P (act s t).1

  pub record Turn (most others : ℕ) (ts : List T) (done : S × List T) : Type 0 where
    pub sound : Sound done.0 (others + total weight done.1)
    pub threads : AllThreads P done.1
    pub same : length done.1 ≡ length ts

  act_at-Turn_next :
      (most : ℕ) (act : S → T → S × T)
      → Keeps most act
      → ((t : T) → weight t ≤ 1)
      → (s : S) (k : ℕ) (ts : List T) (others : ℕ) → AllThreads P ts
      → others + length ts ≤ most
      → Sound s (others + total weight ts)
      → Turn most others ts (act_at act s k ts)
  unfolding act_at
  act_at-Turn_next most act keeps light s k [] others all h sound = record {
    sound = sound;
    threads = tt;
    same = refl;
  }
  act_at-Turn_next most act keeps light s zero (t ∷ ts) others all h sound =
      let (after, fine) =
        keeps s t (others + total weight ts) all.0 (omega (arith, total-le weight light ts))
          (subst (Sound s) (add_skip others (weight t) (total weight ts)) sound) in
      record {
        sound = subst (Sound _) (sym (add_skip others _ (total weight ts))) after;
        threads = (fine, all.1);
        same = refl;
      }
  act_at-Turn_next most act keeps light s (suc k) (t ∷ ts) others all h sound =
      let rest =
        act_at-Turn_next most act keeps light s k ts (others + weight t) all.1
          (omega (arith, light t))
          (subst (Sound s) (add_next others (weight t) (total weight ts)) sound) in
      record {
        sound = subst (Sound _) (sym (add_next others (weight t) _)) rest.sound;
        threads = (all.0, rest.threads);
        same = ap suc rest.same;
      }

  pub act_at-Turn :
      (most : ℕ) (act : S → T → S × T)
      → Keeps most act
      → ((t : T) → weight t ≤ 1)
      → (s : S) (k : ℕ) (ts : List T) → AllThreads P ts
      → length ts ≤ most
      → Sound s (total weight ts)
      → Sound (act_at act s k ts).0 (total weight (act_at act s k ts).1)
        × AllThreads P (act_at act s k ts).1
        × (length (act_at act s k ts).1 ≡ length ts)
  act_at-Turn most act keeps light s k ts all h sound =
      let t =
        act_at-Turn_next most act keeps light s k ts 0 all (omega (arith, h))
          (subst (Sound s) (sym (zero_plus _)) sound) in
      (subst (Sound _) (zero_plus _) t.sound, t.threads, t.same)
