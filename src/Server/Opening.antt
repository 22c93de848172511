-- ===== src/Server/Opening.antt =====
-- A client that is accepted: `handle_listen_ready`.
use local_cache_service.Base.{
  ℕ, ◌+◌, ◌≤◌, ◌<◌, ◌≡◌, ◌⊎◌, inl, inr, refl, sym, ap, ◌∙◌, List, [], ◌∷◌, none, some, Bool, true,
  false, Bool-cases, leb, ◌==◌, length, arith, add64, u64_mod,
}
use local_cache_service.Stats.{record_rejected, connection_opened}
use local_cache_service.Connection.Defs
use local_cache_service.Connection.Defs.{
  Connection, set_registered_events, has_pending_output, read_paused, inflight_limit_reached,
}
use local_cache_service.Server.Admission.{connection_limits}
use local_cache_service.Server.Descriptors.{
  find, emplace, find-emplace, length-emplace, emplace-IsUnique,
}
use local_cache_service.Server.Defs.{Server, put, count}
use local_cache_service.Server.Loop.{
  Accept, accepted, again, interrupted, failed, first_events, accept_client, handle_listen_ready,
}
use local_cache_service.Server.Invariant.{IsServer, count-IsServer, IsTwin}
use local_cache_service.Server.Keeping.{Ensures}
use local_cache_service.Server.Watching.{IsWatching}
use local_cache_service.Server.Steps.{IsPossibleAccept}

-- The connection of a new client.
abbrev fresh : Server → ℕ → Connection
fresh s fd =
    set_registered_events (Defs.init fd s.next_connection_id (connection_limits s.config))
      first_events

module _ (s : Server) (fd : ℕ) (v : IsServer s) (free : find fd s.connections ≡ none)
    (room : length s.connections < s.config.max_connections)
    (ids : s.next_connection_id + 1 < u64_mod) where
  opened : Server
  opened =
      count
        (record (put (record s { next_connection_id = add64 s.next_connection_id 1 })
          s.next_connection_id (fresh s fd)) {
            connections = emplace fd s.next_connection_id s.connections;
          })
        connection_opened

  opened_known :
      (j : ℕ)
      → ((opened.objects j).is_closed ≡ true)
        ⊎ (find (opened.objects j).fd opened.connections ≡ some j)
  unfolding opened set_registered_events Defs.init
  opened_known j = elim (Bool-cases (j == s.next_connection_id)) [
    | inl e ↦
        let same : j ≡ s.next_connection_id = ground (arith, e) in
        inr (ground (arith, e, same, find-emplace fd fd s.next_connection_id s.connections free))
    | inr e ↦ elim (v.known j) [
      | inl h ↦ inl (ground (arith, e, h))
      | inr h ↦
          let other : ((s.objects j).fd == fd) ≡ false =
            elim (Bool-cases ((s.objects j).fd == fd)) [
              | inr z ↦ z
              | inl z ↦
                  let same : (s.objects j).fd ≡ fd = ground (arith, z) in
                  absurd (cc (h, free, ap (λ (k : ℕ). find k s.connections) same))
            ] in
          inr (
            ground (
              arith,
              e,
              find-emplace (s.objects j).fd fd s.next_connection_id s.connections free,
              other,
              h,
            ))
    ]
  ]

  opened_linked :
      (k j : ℕ)
      → find k opened.connections ≡ some j
      → ((opened.objects j).fd ≡ k) × ((opened.objects j).is_closed ≡ false)
  unfolding opened set_registered_events Defs.init
  opened_linked k j e =
      let found = find-emplace k fd s.next_connection_id s.connections free in
      elim (Bool-cases (k == fd)) [
        | inl z ↦
            let same : k ≡ fd = ground (arith, z) in
            let it : j ≡ s.next_connection_id = ground (arith, found, z, e) in
            (ground (arith, it, same), ground (arith, it))
        | inr z ↦
            let there : find k s.connections ≡ some j = ground (arith, found, z, e) in
            let (p, q) = v.linked k j there in
            let not_it : (j == s.next_connection_id) ≡ false =
              elim (Bool-cases (j == s.next_connection_id)) [
                | inr y ↦ y
                | inl y ↦ absurd (cc (q, v.unborn j (ground (arith, y))))
              ] in
            (ground (arith, not_it, p), ground (arith, not_it, q))
      ]

  opened-IsServer : IsServer opened
  unfolding opened set_registered_events Defs.init connection_opened add64
  opened-IsServer =
      let more = length-emplace fd s.next_connection_id s.connections free in
      record {
        known = opened_known;
        linked = opened_linked;
        unborn = λ j h.
            let later : s.next_connection_id + 1 ≤ j = omega (arith, h, ids) in
            let other : (j == s.next_connection_id) ≡ false = ground (arith, later) in
            ground (arith, other, v.unborn j (omega (arith, later)));
        unique = emplace-IsUnique fd s.next_connection_id s.connections free v.unique;
        counted = omega (arith, more, v.counted, room, v.word);
        bounded = omega (arith, more, room);
        word = v.word;
      }

  opened-IsWatching :
      (behind ready : List ℕ)
      → IsWatching behind ready s
      → s.listening ≡ true
      → IsWatching behind ready opened
  unfolding opened set_registered_events Defs.init connection_limits has_pending_output read_paused
      inflight_limit_reached
  opened-IsWatching behind ready w up = record {
    server = opened-IsServer;
    watched = λ j. elim (Bool-cases (j == s.next_connection_id)) [
      | inl e ↦ let quiet = w.listening up in inl (inr (ground (arith, e, quiet, w.inflight)))
      | inr e ↦ elim (w.watched j) [
        | inl (inl h) ↦ inl (inl (ground (arith, e, h)))
        | inl (inr h) ↦ inl (inr (rw e h))
        | inr h ↦ inr h
      ]
    ];
    notified = λ j n. elim (Bool-cases (j == s.next_connection_id)) [
      | inl e ↦ absurd (ground (arith, e, n))
      | inr e ↦ w.notified j (ground (arith, e, n))
    ];
    inflight = w.inflight;
    listening = w.listening;
  }

-- A change that nothing of the invariant sees.
pub alike-IsWatching :
    (s s' : Server) (behind ready : List ℕ)
    → IsWatching behind ready s
    → IsServer s'
    → s'.objects ≡ s.objects
    → s'.draining ≡ s.draining
    → s'.listening ≡ s.listening
    → s'.config ≡ s.config
    → IsWatching behind ready s'
alike-IsWatching s s' behind ready v w o d h g = record {
  server = w;
  watched = λ j. elim (v.watched j) [
    | inl (inl k) ↦ inl (inl (rw o k))
    | inl (inr k) ↦ inl (inr (rw (o, d) k))
    | inr k ↦ inr k
  ];
  notified = λ j n. v.notified j (rw o at n);
  inflight = rw g v.inflight;
  listening = λ e. d ∙ v.listening (sym h ∙ e);
}

twin : (c : Connection) → IsTwin c c
twin c = record { fd = refl; is_closed = refl }

skipped-IsServer :
    (s : Server)
    → IsServer s
    → s.next_connection_id + 1 < u64_mod
    → IsServer (record s { next_connection_id = add64 s.next_connection_id 1 })
unfolding add64
skipped-IsServer s v ids = record {
  known = v.known;
  linked = v.linked;
  unborn = λ j h. v.unborn j (omega (arith, h, ids));
  unique = v.unique;
  counted = v.counted;
  bounded = v.bounded;
  word = v.word;
}

accept_client-IsWatching :
    (s : Server) (fd : ℕ) (added : Bool) (behind ready : List ℕ)
    → find fd s.connections ≡ none
    → s.next_connection_id + 1 < u64_mod
    → IsWatching behind ready s
    → s.listening ≡ true
    → IsWatching behind ready (accept_client s fd added)
unfolding accept_client record_rejected opened
accept_client-IsWatching s fd added behind ready free ids w up =
    elim (Bool-cases (leb s.config.max_connections (length s.connections))) [
      | inl e ↦ simp e (
          alike-IsWatching s _ behind ready w (count-IsServer s record_rejected w.server refl) refl
            refl refl refl)
      | inr e ↦ elim (Bool-cases added) [
        | inr f ↦
            simp (e, f)
              (alike-IsWatching s _ behind ready w (skipped-IsServer s w.server ids) refl refl refl
                refl)
        | inl f ↦
            simp (e, f)
              (opened-IsWatching s fd w.server free (ground (arith, e)) ids behind ready w up)
      ]
    ]

accept_client_listening :
    (s : Server) (fd : ℕ) (added : Bool)
    → ((accept_client s fd added).listening ≡ s.listening)
      × ((accept_client s fd added).ready_connections ≡ s.ready_connections)
unfolding accept_client
accept_client_listening s fd added = ground arith

-- A server with this ready list.
abbrev pub IsListed : List ℕ → List ℕ → List ℕ → Server → Type 0
IsListed behind ready list s = IsWatching behind ready s × (s.ready_connections ≡ list)

-- All the clients that `accept4` has for the loop.
pub handle_listen_ready-IsListed :
    (answers : List Accept) (s : Server) (behind ready list : List ℕ)
    → IsPossibleAccept s answers
    → IsListed behind ready list s
    → s.listening ≡ true
    → Ensures (IsListed behind ready list) (handle_listen_ready s answers)
unfolding handle_listen_ready
handle_listen_ready-IsListed [] s behind ready list p w up = tt
handle_listen_ready-IsListed (accepted fd added ∷ answers) s behind ready list (free, ids, p) (w, l)
      up =
    let (same, more) = accept_client_listening s fd added in
    handle_listen_ready-IsListed answers (accept_client s fd added) behind ready list p
      (accept_client-IsWatching s fd added behind ready free ids w up, more ∙ l) (same ∙ up)
handle_listen_ready-IsListed (again ∷ answers) s behind ready list p w up = w
handle_listen_ready-IsListed (interrupted ∷ answers) s behind ready list p w up =
    handle_listen_ready-IsListed answers s behind ready list p w up
handle_listen_ready-IsListed (failed ∷ answers) s behind ready list p w up = w
