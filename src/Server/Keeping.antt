-- ===== src/Server/Keeping.antt =====
-- Predicates of the server that the writes of a handler keep, and results that may be missing.
use local_cache_service.Base.{ℕ, ◌≡◌, subst, Option, none, some, ◌>>=◌, Bool, true, false}
use local_cache_service.Stats.{ServerStats}
use local_cache_service.Connection.Defs.{Connection}
use local_cache_service.Connection.Frame.{IsSame}
use local_cache_service.WorkerPool.Defs.{Pool}
use local_cache_service.Server.Defs.{Server, Job, put, count, close_connection}

-- A result, if there is one.
abbrev pub Ensures {ℓ κ} : {A : Type ℓ} → (A → Type κ) → Option A → Type κ
Ensures P none = Unit
Ensures P (some a) = P a

pub Ensures-bind {ℓ κ} :
    {A B : Type ℓ} (P : A → Type κ) (Q : B → Type κ) (o : Option A) (f : A → Option B)
    → Ensures P o
    → ((a : A) → P a → Ensures Q (f a))
    → Ensures Q (o >>= f)
Ensures-bind P Q none f h k = tt
Ensures-bind P Q (some a) f h k = k a h

pub Ensures-elim {ℓ κ} :
    {A : Type ℓ} (P : A → Type κ) (b : Bool) (x y : Option A)
    → Ensures P x
    → Ensures P y
    → Ensures P (elim b [ true ↦ x | false ↦ y ])
Ensures-elim P true x y v w = v
Ensures-elim P false x y v w = w

pub Ensures-pair {ℓ} :
    {A : Type ℓ} (P Q : A → Type 0) (o : Option A)
    → Ensures P o
    → Ensures Q o
    → Ensures (λ a. P a × Q a) o
Ensures-pair P Q none v w = tt
Ensures-pair P Q (some a) v w = (v, w)

pub Ensures-map {ℓ} :
    {A : Type ℓ} (P Q : A → Type 0) (o : Option A)
    → Ensures P o
    → ((a : A) → P a → Q a)
    → Ensures Q o
Ensures-map P Q none v f = tt
Ensures-map P Q (some a) v f = f a v

pub ensures_some {ℓ} :
    {A : Type ℓ} (P : A → Type 0) (o : Option A) (a : A) → Ensures P o → o ≡ some a → P a
ensures_some P none a v e = absurd cc
ensures_some P (some b) a v e = let same : b ≡ a = cc in subst P same v

-- A predicate that the writes of a handler of the connection `id` keep.
pub record IsKept (id : ℕ) (P : Server → Type 0) : Type 0 where
  pub written : (s : Server) (c : Connection) → P s → IsSame (s.objects id) c → P (put s id c)
  pub counted :
      (s : Server) (f : ServerStats → ServerStats)
      → P s
      → (f s.service.stats).active_connections ≡ s.service.stats.active_connections
      → P (count s f)
  pub queued : (s : Server) (pool : Pool Job) → P s → P (record s { pool = pool })
  pub closed : (s : Server) → P s → P (close_connection s id)
