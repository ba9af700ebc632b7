-- ===== src/Redis.antt =====
-- The Redis commands that the services call (libs/shared/src/redis/redis.service.ts passes them to
-- the client): a server outside the repository, so an interface with its documented behaviour. The
-- services store decimal numbers under these keys, which they print and parse; here a value is the
-- number. Expiry is not part of the interface: it holds between a write and its time to live.
use discord_bot_backend.Prelude.{
  ℕ, String, Option, none, some, ◌≡◌, refl, List, [], ◌∷◌, take, ◌==◌, if◌then◌else◌,
}

pub record Redis : Type 1 where
  pub Store : Type 0
  pub get : String → Store → Option ℕ
  pub set : String → ℕ → Store → Store
  pub del : String → Store → Store
  -- `LRANGE key 0 -1`, `LPUSH`, and `LTRIM key 0 (n - 1)`.
  pub lrange : String → Store → List ℕ
  pub lpush : String → ℕ → Store → Store
  pub ltrim : String → ℕ → Store → Store
  pub get-set :
      (k j : String) (v : ℕ) (s : Store) → get j (set k v s) ≡ (if k == j then some v else get j s)
  pub get-del : (k j : String) (s : Store) → get j (del k s) ≡ (if k == j then none else get j s)
  pub lrange-lpush :
      (k j : String) (v : ℕ) (s : Store)
      → lrange j (lpush k v s) ≡ (if k == j then v ∷ lrange k s else lrange j s)
  pub lrange-ltrim :
      (k j : String) (n : ℕ) (s : Store)
      → lrange j (ltrim k n s) ≡ (if k == j then take n (lrange k s) else lrange j s)

pub record Memory : Type 0 where
  pub value : String → Option ℕ
  pub items : String → List ℕ

abbrev pub blank : Memory
blank = record { value = λ k. none; items = λ k. [] }

-- An implementation of the interface, for the witnesses.
abbrev pub memory : Redis
memory = record {
  Store = Memory;
  get = λ k s. s.value k;
  set = λ k v s. record s { value = λ j. if k == j then some v else s.value j };
  del = λ k s. record s { value = λ j. if k == j then none else s.value j };
  lrange = λ k s. s.items k;
  lpush = λ k v s. record s { items = λ j. if k == j then v ∷ s.items k else s.items j };
  ltrim = λ k n s. record s { items = λ j. if k == j then take n (s.items k) else s.items j };
  get-set = λ k j v s. refl;
  get-del = λ k j s. refl;
  lrange-lpush = λ k j v s. refl;
  lrange-ltrim = λ k j n s. refl;
}
