-- ===== src/Server/Invariant.antt =====
-- What holds of the server between two steps: its map, its store and its counter of open connections
-- agree.
use local_cache_service.Base.{
  ℕ, ◌≤◌, ◌<◌, ◌≡◌, ◌⊎◌, inl, inr, refl, sym, ap, ◌∙◌, some, true, false, Bool-cases, ◌==◌, length,
  arith, sub64, u64_mod,
}
use local_cache_service.Stats.{ServerStats, connection_closed}
use local_cache_service.Connection.Defs.{Connection, mark_closed}
use local_cache_service.Server.Descriptors.{
  find, erase, IsUnique, find-erase, length-erase, erase-IsUnique,
}
use local_cache_service.Server.Defs.{Server, put, update, count, close_connection}

pub record IsServer (s : Server) : Type 0 where
  pub known :
      (id : ℕ)
      → ((s.objects id).is_closed ≡ true) ⊎ (find (s.objects id).fd s.connections ≡ some id)
  pub linked :
      (fd id : ℕ)
      → find fd s.connections ≡ some id
      → ((s.objects id).fd ≡ fd) × ((s.objects id).is_closed ≡ false)
  pub unborn : (id : ℕ) → s.next_connection_id ≤ id → (s.objects id).is_closed ≡ true
  pub unique : IsUnique s.connections
  pub counted : s.service.stats.active_connections ≡ length s.connections
  pub bounded : length s.connections ≤ s.config.max_connections
  pub word : s.config.max_connections < u64_mod

-- The same socket, open as before.
pub record IsTwin (c c' : Connection) : Type 0 where
  pub fd : c'.fd ≡ c.fd
  pub is_closed : c'.is_closed ≡ c.is_closed

-- The same server as far as the invariant sees.
pub record IsLike (s s' : Server) : Type 0 where
  pub objects : (id : ℕ) → IsTwin (s.objects id) (s'.objects id)
  pub connections : s'.connections ≡ s.connections
  pub next_connection_id : s'.next_connection_id ≡ s.next_connection_id
  pub active : s'.service.stats.active_connections ≡ s.service.stats.active_connections
  pub config : s'.config ≡ s.config

pub IsLike-IsServer : {s s' : Server} → IsServer s → IsLike s s' → IsServer s'
IsLike-IsServer {s} {s'} v l = record {
  known = λ id. elim (v.known id) [
    | inl e ↦ inl ((l.objects id).is_closed ∙ e)
    | inr e ↦ inr (rw ((l.objects id).fd, l.connections) e)
  ];
  linked = λ fd id e.
      let (p, q) = v.linked fd id (rw l.connections at e) in
      ((l.objects id).fd ∙ p, (l.objects id).is_closed ∙ q);
  unborn = λ id h. (l.objects id).is_closed ∙ v.unborn id (omega (arith, l.next_connection_id));
  unique = rw l.connections v.unique;
  counted = l.active ∙ v.counted ∙ ap length (sym l.connections);
  bounded = rw (l.connections, l.config) v.bounded;
  word = rw l.config v.word;
}

IsTwin-refl : (c : Connection) → IsTwin c c
IsTwin-refl c = record { fd = refl; is_closed = refl }

pub update-IsTwin :
    (s : Server) (id : ℕ) (c : Connection)
    → IsTwin (s.objects id) c
    → (j : ℕ) → IsTwin (s.objects j) (update s.objects id c j)
update-IsTwin s id c h j = elim (Bool-cases (j == id)) [
  | inl e ↦ let same : j ≡ id = ground (arith, e) in rw e (rw same h)
  | inr e ↦ rw e (IsTwin-refl (s.objects j))
]

pub put-IsServer :
    (s : Server) (id : ℕ) (c : Connection)
    → IsServer s
    → IsTwin (s.objects id) c
    → IsServer (put s id c)
put-IsServer s id c v h = IsLike-IsServer v (record {
  objects = update-IsTwin s id c h;
  connections = refl;
  next_connection_id = refl;
  active = refl;
  config = refl;
})

pub count-IsServer :
    (s : Server) (f : ServerStats → ServerStats)
    → IsServer s
    → (f s.service.stats).active_connections ≡ s.service.stats.active_connections
    → IsServer (count s f)
count-IsServer s f v h = IsLike-IsServer v (record {
  objects = λ id. IsTwin-refl (s.objects id);
  connections = refl;
  next_connection_id = refl;
  active = h;
  config = refl;
})

-- The connection `id` is open, and the map holds it.
module _ (s : Server) (id : ℕ) (v : IsServer s) (open_one : (s.objects id).is_closed ≡ false) where
  held : find (s.objects id).fd s.connections ≡ some id
  held = elim (v.known id) [ inl e ↦ absurd (cc (e, open_one)) | inr e ↦ e ]

  closed_server : Server
  closed_server =
      count
        (record (put s id (mark_closed (s.objects id))) {
          connections = erase (s.objects id).fd s.connections;
        })
        connection_closed

  closed_known :
      (j : ℕ)
      → ((closed_server.objects j).is_closed ≡ true)
        ⊎ (find (closed_server.objects j).fd closed_server.connections ≡ some j)
  unfolding closed_server mark_closed
  closed_known j = elim (Bool-cases (j == id)) [
    | inl e ↦ inl (ground (arith, e))
    | inr e ↦ elim (v.known j) [
      | inl h ↦ inl (ground (arith, e, h))
      | inr h ↦
          let fd = (s.objects j).fd in
          let other : (fd == (s.objects id).fd) ≡ false =
            elim (Bool-cases (fd == (s.objects id).fd)) [
              | inr z ↦ z
              | inl z ↦
                  let same : fd ≡ (s.objects id).fd = ground (arith, z) in
                  let twice : j ≡ id = cc (h, held, ap (λ (k : ℕ). find k s.connections) same) in
                  absurd (ground (arith, e, twice))
            ] in
          inr (ground (arith, e, find-erase fd (s.objects id).fd s.connections v.unique, other, h))
    ]
  ]

  closed_linked :
      (fd j : ℕ)
      → find fd closed_server.connections ≡ some j
      → ((closed_server.objects j).fd ≡ fd) × ((closed_server.objects j).is_closed ≡ false)
  unfolding closed_server mark_closed
  closed_linked fd j e =
      let found = find-erase fd (s.objects id).fd s.connections v.unique in
      let other : (fd == (s.objects id).fd) ≡ false = ground (arith, found, e) in
      let there : find fd s.connections ≡ some j = ground (arith, found, e) in
      let (p, q) = v.linked fd j there in
      let not_it : (j == id) ≡ false = elim (Bool-cases (j == id)) [
        | inr z ↦ z
        | inl z ↦
            let same : j ≡ id = ground (arith, z) in
            let clash : fd ≡ (s.objects id).fd = sym p ∙ ap (λ (k : ℕ). (s.objects k).fd) same in
            absurd (ground (arith, other, clash))
      ] in
      (ground (arith, not_it, p), ground (arith, not_it, q))

  closed-IsServer : IsServer closed_server
  unfolding closed_server mark_closed connection_closed sub64
  closed-IsServer =
      let fewer = length-erase (s.objects id).fd id s.connections held in
      record {
        known = closed_known;
        linked = closed_linked;
        unborn = λ j h. elim (Bool-cases (j == id)) [
          | inl e ↦ ground (arith, e)
          | inr e ↦ ground (arith, e, v.unborn j h)
        ];
        unique = erase-IsUnique (s.objects id).fd s.connections v.unique;
        counted = omega (arith, fewer, v.counted, v.bounded, v.word);
        bounded = omega (arith, fewer, v.bounded);
        word = v.word;
      }

-- Closing a connection, once or again, keeps the invariant.
pub close_connection-IsServer :
    (s : Server) (id : ℕ) → IsServer s → IsServer (close_connection s id)
unfolding close_connection closed_server
close_connection-IsServer s id v = elim (Bool-cases (s.objects id).is_closed) [
  | inl e ↦ simp e v
  | inr e ↦ simp e (closed-IsServer s id v e)
]
