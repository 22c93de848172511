-- ===== src/Server/Watching.antt =====
-- No connection is forgotten: between two steps, epoll watches what each open connection needs, or the
-- connection is on the ready list.
use local_cache_service.Base.{
  ℕ, ◌<◌, ◌≡◌, ◌⊎◌, inl, inr, refl, sym, ap, ◌∙◌, List, [], ◌∷◌, Bool, true, false, ◌||◌,
  Bool-cases, ◌==◌, arith,
}
use local_cache_service.Connection.Defs.{Connection, mark_closed}
use local_cache_service.Server.Defs.{Server, update, close_connection}
use local_cache_service.Server.Invariant.{IsServer}
use local_cache_service.Server.Interest.{IsWatched}
use local_cache_service.Server.Keeping.{IsKept}

-- The id is on the list.
unfoldable pub is_ready : ℕ → List ℕ → Bool
is_ready id [] = false
is_ready id (j ∷ ids) = (j == id) || is_ready id ids

-- `behind` are the ids whose connections may not be watched right, `ready` those that wait on the ready list.
pub record IsWatching (behind ready : List ℕ) (s : Server) : Type 0 where
  pub server : IsServer s
  pub watched : (id : ℕ) → IsWatched s id ⊎ (is_ready id behind ≡ true)
  pub notified : (id : ℕ) → (s.objects id).notify_pending ≡ true → is_ready id ready ≡ true
  pub inflight : 0 < s.config.max_inflight_per_conn
  pub listening : s.listening ≡ true → s.draining ≡ false

abbrev pub IsRunning : Server → Type 0
IsRunning s = IsWatching s.ready_connections s.ready_connections s

-- What a handler of the connection `id` leaves alone.
pub record IsLocal (s : Server) (id : ℕ) (s' : Server) : Type 0 where
  pub others : (j : ℕ) → (j == id) ≡ false → s'.objects j ≡ s.objects j
  pub notify_pending : (s'.objects id).notify_pending ≡ (s.objects id).notify_pending
  pub ready : s'.ready_connections ≡ s.ready_connections
  pub draining : s'.draining ≡ s.draining
  pub listening : s'.listening ≡ s.listening
  pub config : s'.config ≡ s.config

pub IsLocal-refl : (s : Server) (id : ℕ) → IsLocal s id s
IsLocal-refl s id = record {
  others = λ j e. refl;
  notify_pending = refl;
  ready = refl;
  draining = refl;
  listening = refl;
  config = refl;
}

update_other :
    (objects : ℕ → Connection) (id j : ℕ) (c : Connection)
    → (j == id) ≡ false
    → update objects id c j ≡ objects j
update_other objects id j c e = rw e refl

update_same : (objects : ℕ → Connection) (id : ℕ) (c : Connection) → update objects id c id ≡ c
update_same objects id c = ground arith

-- A step from `t` that leaves everything else alone.
IsLocal-write :
    (s t u : Server) (id : ℕ) (c : Connection)
    → IsLocal s id t
    → u.objects ≡ update t.objects id c
    → c.notify_pending ≡ (t.objects id).notify_pending
    → u.ready_connections ≡ t.ready_connections
    → u.draining ≡ t.draining
    → u.listening ≡ t.listening
    → u.config ≡ t.config
    → IsLocal s id u
IsLocal-write s t u id c l o n r d h g = record {
  others =
      λ j e. ap (λ (f : ℕ → Connection). f j) o ∙ update_other t.objects id j c e ∙ l.others j e;
  notify_pending =
      ap (λ (f : ℕ → Connection). (f id).notify_pending) o
      ∙ ap (λ (x : Connection). x.notify_pending) (update_same t.objects id c)
      ∙ n
      ∙ l.notify_pending;
  ready = r ∙ l.ready;
  draining = d ∙ l.draining;
  listening = h ∙ l.listening;
  config = g ∙ l.config;
}

close-IsLocal : (s t : Server) (id : ℕ) → IsLocal s id t → IsLocal s id (close_connection t id)
unfolding close_connection mark_closed
close-IsLocal s t id l = elim (Bool-cases (t.objects id).is_closed) [
  | inl e ↦ simp e l
  | inr e ↦
      simp e (IsLocal-write s t _ id (mark_closed (t.objects id)) l refl refl refl refl refl refl)
]

-- Every handler of the connection leaves the rest alone.
pub IsLocal-IsKept : (s : Server) (id : ℕ) → IsKept id (IsLocal s id)
IsLocal-IsKept s id = record {
  written = λ t c l h. IsLocal-write s t _ id c l refl h.notify_pending refl refl refl refl;
  counted = λ t f l e. record {
    others = l.others;
    notify_pending = l.notify_pending;
    ready = l.ready;
    draining = l.draining;
    listening = l.listening;
    config = l.config;
  };
  queued = λ t pool l. record {
    others = l.others;
    notify_pending = l.notify_pending;
    ready = l.ready;
    draining = l.draining;
    listening = l.listening;
    config = l.config;
  };
  closed = λ t l. close-IsLocal s t id l;
}

IsWatched-alike :
    (s s' : Server) (j : ℕ)
    → s'.objects j ≡ s.objects j
    → s'.draining ≡ s.draining
    → IsWatched s j
    → IsWatched s' j
IsWatched-alike s s' j e d w = rw (e, d) w

-- One id less is behind when its handler is done.
pub handled-IsWatching :
    (s s' : Server) (id : ℕ) (behind behind' ready : List ℕ)
    → IsWatching behind ready s
    → IsServer s'
    → IsLocal s id s'
    → IsWatched s' id
    → ((j : ℕ) → (j == id) ≡ false → is_ready j behind ≡ is_ready j behind')
    → IsWatching behind' ready s'
handled-IsWatching s s' id behind behind' ready v w l h less = record {
  server = w;
  watched = λ j. elim (Bool-cases (j == id)) [
    | inl e ↦ let same : j ≡ id = ground (arith, e) in inl (rw same h)
    | inr e ↦ elim (v.watched j) [
      | inl k ↦ inl (IsWatched-alike s s' j (l.others j e) l.draining k)
      | inr k ↦ inr (sym (less j e) ∙ k)
    ]
  ];
  notified = λ j n. elim (Bool-cases (j == id)) [
    | inl e ↦ let same : j ≡ id = ground (arith, e) in v.notified j (cc (same, n, l.notify_pending))
    | inr e ↦ v.notified j (ap (λ (c : Connection). c.notify_pending) (sym (l.others j e)) ∙ n)
  ];
  inflight = rw l.config v.inflight;
  listening = λ e. l.draining ∙ v.listening (sym l.listening ∙ e);
}
