-- ===== src/Service/Redis/Expiring.antt =====
-- What the Redis service promises where keys expire: a store whose keys with a time to live may vanish
-- between two commands, over a Redis that keeps its documented behaviour.
use mathlib.Core.Path.{subst}
use database_router.Shared.{
  ◌*◌, ◌≡◌, ◌⊎◌, refl, Bool, true, false, none, some, Option, List, [], ◌∷◌, inl, inr,
  if◌then◌else◌,
}
use database_router.Shared.Action.{ok, err}
use database_router.Shared.Int.{ℤ, pos, ltb_ℤ, pos_part, wrap}
use database_router.Text.{Text, text_eq}
use database_router.Fault.{GoError}
use database_router.Driver.{Driver}
use database_router.Driver.Calls.{Ctx, Handle}
use database_router.Service.Redis.Commands.{
  Command, set, get, delete, Reply, stored, failed, value, deleted,
}

-- The abstract state: the value of each key, and the expiration that it was stored with, in nanoseconds.
abbrev pub Contents : Type 0
Contents = Text → Option (Text × ℤ)

-- A key that was stored with a positive expiration.
abbrev pub Expires : Option (Text × ℤ) → Type 0
Expires none = ⊥
Expires (some (v, e)) = ltb_ℤ (pos 0) e ≡ true

-- From `f`, time passes: keys that expire may be gone.
abbrev pub Faded : Contents → Contents → Type 0
Faded f g = (j : Text) → (g j ≡ f j) ⊎ ((g j ≡ none) × Expires (f j))

abbrev pub Same : Contents → Contents → Type 0
Same f g = (j : Text) → g j ≡ f j

-- `g` is `f` with another entry at `k`.
abbrev pub Put : Text → Option (Text × ℤ) → Contents → Contents → Type 0
Put k x f g = (j : Text) → g j ≡ (if text_eq k j then x else f j)

abbrev pub is_present : Option (Text × ℤ) → Bool
is_present x = elim x [ none ↦ false | some p ↦ true ]

abbrev pub number_of : Option (Text × ℤ) → ℤ
number_of none = pos 0
number_of (some p) = pos 1

-- The documented behaviour of a Redis that no one else writes to: behind what has expired by then, a
-- command is carried out at once. A command that fails may or may not have been carried out.
pub record IsExpiring {W : Type 0} (d : Driver W) : Type 0 where
  pub contents : W → Contents
  pub set_done :
      (ctx : Ctx) (client : Handle) (k v : Text) (e : ℤ) (w : W)
      → (d.redis_set ctx client k v e w).0 ≡ ok tt
      → (f : Contents) × Faded (contents w) f
        × Put k (some (v, e)) f (contents (d.redis_set ctx client k v e w).1)
  pub set_failed :
      (ctx : Ctx) (client : Handle) (k v : Text) (e : ℤ) (x : GoError) (w : W)
      → (d.redis_set ctx client k v e w).0 ≡ err x
      → (f : Contents) × Faded (contents w) f
        × (Same f (contents (d.redis_set ctx client k v e w).1)
            ⊎ Put k (some (v, e)) f (contents (d.redis_set ctx client k v e w).1))
  pub get_done :
      (ctx : Ctx) (client : Handle) (k v : Text) (w : W)
      → (d.redis_get ctx client k w).0 ≡ ok v
      → (f : Contents) × Faded (contents w) f
        × ((e : ℤ) × (f k ≡ some (v, e)))
        × Same f (contents (d.redis_get ctx client k w).1)
  pub get_fades :
      (ctx : Ctx) (client : Handle) (k : Text) (w : W)
      → Faded (contents w) (contents (d.redis_get ctx client k w).1)
  pub ttl_fades :
      (ctx : Ctx) (client : Handle) (k : Text) (w : W)
      → Faded (contents w) (contents (d.redis_ttl ctx client k w).1)
  pub del_done :
      (ctx : Ctx) (client : Handle) (k : Text) (n : ℤ) (w : W)
      → (d.redis_del ctx client k w).0 ≡ ok n
      → (f : Contents) × Faded (contents w) f
        × (n ≡ number_of (f k))
        × Put k none f (contents (d.redis_del ctx client k w).1)
  pub del_failed :
      (ctx : Ctx) (client : Handle) (k : Text) (x : GoError) (w : W)
      → (d.redis_del ctx client k w).0 ≡ err x
      → (f : Contents) × Faded (contents w) f
        × (Same f (contents (d.redis_del ctx client k w).1)
            ⊎ Put k none f (contents (d.redis_del ctx client k w).1))

-- What SET stores for a time to live of `ttl` seconds: that many nanoseconds, and 0 for one that is not
-- positive; a Go duration has 64 bits.
abbrev pub entry_for : Text → ℤ → Option (Text × ℤ)
entry_for v ttl = some (v, wrap 64 (pos (pos_part ttl * 1_000_000_000)))

-- From the contents `f`, with nothing expiring meanwhile, the store may answer `r` and hold `g` then.
abbrev pub Allowed : Contents → Command → Reply → Contents → Type 0
Allowed f (set k v ttl) stored g = Put k (entry_for v ttl) f g
Allowed f (set k v ttl) failed g = Same f g ⊎ Put k (entry_for v ttl) f g
Allowed f (get k) (value v) g = ((e : ℤ) × (f k ≡ some (v, e))) × Same f g
Allowed f (get k) failed g = Same f g
Allowed f (delete k) (deleted b) g = (b ≡ is_present (f k)) × Put k none f g
Allowed f (delete k) failed g = Same f g ⊎ Put k none f g
Allowed f _ _ g = ⊥

-- Before each command, and at the end, keys may have expired.
abbrev pub AllowedRun : Contents → List Command → List Reply → Contents → Type 0
AllowedRun f [] [] g = Faded f g
AllowedRun f (c ∷ cs) (r ∷ rs) g =
    (f' : Contents) × (h : Contents) × Faded f f' × Allowed f' c r h × AllowedRun h cs rs g
AllowedRun f _ _ g = ⊥

pub Faded-refl : (f : Contents) → Faded f f
Faded-refl f j = inl refl

pub Faded-trans : (f g h : Contents) → Faded f g → Faded g h → Faded f h
Faded-trans f g h a b j = elim (b j) [
  | inl same ↦ rw same (a j)
  | inr (gone, expires) ↦ elim (a j) [
    | inl same ↦ inr (gone, subst Expires same expires)
    | inr (absent, expired) ↦ inr (gone, expired)
  ]
]
