-- ===== src/World/Laws/Waiting.antt =====
-- The loops of the sketch that wait for packets, and the lock that a call of the server holds.
use Prim.Native.String.{String}
use ether_house.Base.{ℕ, zero, suc, u32, ◌+◌, ◌<◌, ◌≤◌, ◌≡◌, refl, ◌⊎◌, false, ltb, arith}
use ether_house.Sketch.{http_timeout}
use ether_house.Net.{Url, BrowserCallback}
use ether_house.Net.Client.{browse_url}
use ether_house.World.{when, Env, World, Outcome, returns, reboots, M, on_net, ◌>>◌, ◌>>=◌, millis}

-- A poll returns, after `p` looks at the most.
abbrev pub Polls : ℕ → M (Unit {0}) → Type 0
Polls p poll =
    (w : World)
    → (w' : World) × (poll w ≡ returns tt w') × (w.ticks ≤ w'.ticks) × (w'.ticks ≤ w.ticks + p)

-- The looks that so many rounds and one more take at the most.
abbrev pub looks : ℕ → ℕ → ℕ
looks p zero = p + 1
looks p (suc left) = looks p left + (p + 1)

pub looks-zero : (left : ℕ) → looks 0 left ≡ left + 1
looks-zero zero = refl
looks-zero (suc left) = let e = looks-zero left in omega (arith, e)

-- After `left` rounds from tick `a` on, each look of the next round shows more than `timer`. Of the
-- clock nothing else is supposed: it may repeat a number, and start anew at 0.
abbrev pub Passed : Env → ℕ → ℕ → ℕ → ℕ → Type 0
Passed env p left a timer =
    (t : ℕ) → a + left ≤ t → t ≤ a + looks p left → timer < u32 (env.clock t)

module _ (env : Env) (p : ℕ) (poll : M (Unit {0})) (polls : Polls p poll) where
  abbrev ticked : World → World
  ticked w = record w { ticks = w.ticks + 1 }

  -- The loop of a call of the server ends unlocked, between two ticks, or with a reset.
  abbrev Unlocks : ℕ → ℕ → Outcome (Unit {0}) → Type 0
  Unlocks start limit o =
      ((w' : World) × (o ≡ returns tt w')
        × (w'.sketch.locked ≡ false)
        × (start ≤ w'.ticks)
        × (w'.ticks ≤ limit))
      ⊎ ((w' : World) × (o ≡ reboots w'))

  module _ (late : M (Unit {0})) (resets : (w : World) → (w' : World) × (late w ≡ reboots w')) where
    -- The rest of a round when `now` is read, and a round.
    abbrev check : ℕ → M (Unit {0}) → ℕ → M (Unit {0})
    check timer rest now = when (λ _. ltb timer now) late >> rest

    abbrev round : ℕ → M (Unit {0}) → M (Unit {0})
    round timer rest = poll >> millis env >>= check timer rest

    abbrev locked_round : ℕ → M (Unit {0}) → M (Unit {0})
    locked_round timer rest = when (λ v. v.sketch.locked) (round timer rest)

    abbrev Ends : Outcome (Unit {0}) → Type 0
    Ends o = ((w' : World) × (o ≡ returns tt w')) ⊎ ((w' : World) × (o ≡ reboots w'))

    -- The waits of a call that has been made, where the lock is taken.
    module _ (left : ℕ) (enough : env.rounds ≡ suc left) where
      -- From each tick that can be reached before, http_timeout passes in the rounds.
      abbrev pub InTime : ℕ → Type 0
      InTime start =
          (a : ℕ)
          → start ≤ a
          → a ≤ start + 1 + looks p left
          → Passed env p left (a + 1) (u32 (u32 (env.clock a) + http_timeout))

      browse : Url → BrowserCallback → M (Unit {0})
      browse url callback v =
          on_net (λ n. browse_url url callback (record n { hisip = v.sketch.api_ip })) v

      -- What is done before the wait takes no look at the clock.
      abbrev Prepared : World → Outcome (Unit {0}) → Type 0
      Prepared w o =
          ((v : World) × (o ≡ returns tt v) × (v.ticks ≡ w.ticks)) ⊎ ((v : World) × (o ≡ reboots v))
