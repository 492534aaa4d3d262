-- ===== src/World/Laws/Agrees.antt =====
-- Runs of the sketch that are the same wherever its sniffer's callback is under way.
use ether_house.Base.{◌≡◌, refl, ap, ◌∙◌, Bool, true, false, if◌then◌else◌}
use ether_house.Sketch.{Sketch}
use ether_house.World.{
  World, Outcome, returns, reboots, unfinished, M, ◌>>=◌, ◌>>◌, when, final, ended,
}
use ether_house.World.Laws.Keeps.{Keeps}

abbrev pub nested : Sketch → Bool
nested s = s.sniffer_nested

-- Two runs that are the same where the callback is under way, and keep it so.
abbrev pub Agrees {ℓ} : {A : Type ℓ} → M A → M A → Type ℓ
Agrees m m' =
    (w : World) → nested w.sketch ≡ true → (m w ≡ m' w) × (nested (final (m w)).sketch ≡ true)

pub kept-Agrees {ℓ} : {A : Type ℓ} (m : M A) → Keeps nested m → Agrees m m
kept-Agrees m k w h = (refl, k w h)

outcome-Agrees {ℓ κ} :
    {A : Type ℓ} {B : Type κ} (f f' : A → M B) (w : World)
    → ((a : A) → Agrees (f a) (f' a))
    → (o : Outcome A) → nested (final o).sketch ≡ true
    → ((ended o >>= f) w ≡ (ended o >>= f') w) × (nested (final ((ended o >>= f) w)).sketch ≡ true)
outcome-Agrees f f' w h (returns a v) p = h a v p
outcome-Agrees f f' w h (reboots v) p = (refl, p)
outcome-Agrees f f' w h (unfinished v) p = (refl, p)

pub same_first {ℓ κ} :
    {A : Type ℓ} {B : Type κ} (m m' : M A) (f : A → M B) (w : World)
    → m w ≡ m' w
    → (m >>= f) w ≡ (m' >>= f) w
same_first m m' f w e = ap (λ o. (ended o >>= f) w) e

pub bind-Agrees {ℓ κ} :
    {A : Type ℓ} {B : Type κ} (m m' : M A) (f f' : A → M B)
    → Agrees m m'
    → ((a : A) → Agrees (f a) (f' a))
    → Agrees (m >>= f) (m' >>= f')
bind-Agrees m m' f f' h k w p =
    let (e, q) = h w p in
    let (e', q') = outcome-Agrees f f' w k (m w) q in (e' ∙ same_first m m' f' w e, q')

pub then-Agrees {ℓ} :
    {B : Type ℓ} (m m' : M (Unit {0})) (k k' : M B)
    → Agrees m m'
    → Agrees k k'
    → Agrees (m >> k) (m' >> k')
then-Agrees m m' k k' h h' = bind-Agrees m m' (λ _. k) (λ _. k') h (λ _. h')

pub when-Agrees :
    (test : World → Bool) (m m' : M (Unit {0})) → Agrees m m' → Agrees (when test m) (when test m')
when-Agrees test m m' h w p = by_test (test w)
  where
    by_test :
        (t : Bool)
        → ((if t then m w else returns tt w) ≡ (if t then m' w else returns tt w))
          × (nested (final (if t then m w else returns tt w)).sketch ≡ true)
    by_test true = h w p
    by_test false = (refl, p)
