-- ===== src/Server/Starting.antt =====
-- `Server::start` with `remove_stale_socket`, and the part of the destructor for the socket file:
-- src/server.cpp. What the system calls say is an argument.
use local_cache_service.Base.{
  ℕ, ◌≡◌, ◌≢◌, ◌⊎◌, inl, inr, refl, ap, ◌∙◌, [], ◌∷◌, Option, none, some, Bool, true, false,
  Bool-cases, not, if◌then◌else◌, Bytes, arith,
}
use local_cache_service.Config.Server.{ServerConfig, ConfigError, validate}

-- The messages of `start`, one for each return.
pub data StartError : Type 0 where
  invalid_config : ConfigError → StartError
  stat_failed not_a_socket probe_failed already_listening connect_failed unlink_failed : StartError
  socket_failed bind_failed chmod_failed listen_failed epoll_failed eventfd_failed register_failed :
      StartError

-- What `stat` says of the path: ENOENT, another error, or a file that is a socket or not.
pub data Stat : Type 0 where
  absent unknown : Stat
  file : Bool → Stat

-- What `connect` to the path says: somebody listens; ECONNREFUSED or ENOENT; another error.
pub data Probe : Type 0 where
  listens refused unclear : Probe

-- `unlink` is whether it succeeds or finds nothing; the others are whether the call succeeds.
pub record StartAnswers : Type 0 where
  pub stat : Stat
  pub probe_socket : Bool
  pub probe : Probe
  pub unlink : Bool
  pub socket : Bool
  pub bind : Bool
  pub chmod : Bool
  pub listen : Bool
  pub epoll : Bool
  pub eventfd : Bool
  pub register : Bool

-- The error, if there is one, and whether `unlink` was called.
abbrev pub after_probe : Bool → Probe → Option StartError × Bool
after_probe unlinked listens = (some already_listening, false)
after_probe unlinked unclear = (some connect_failed, false)
after_probe unlinked refused = (if unlinked then none else some unlink_failed, true)

abbrev pub after_stat : StartAnswers → Stat → Option StartError × Bool
after_stat a absent = (none, false)
after_stat a unknown = (some stat_failed, false)
after_stat a (file false) = (some not_a_socket, false)
after_stat a (file true) =
    if not a.probe_socket then (some probe_failed, false) else after_probe a.unlink a.probe

unfoldable pub remove_stale_socket : StartAnswers → Option StartError × Bool
remove_stale_socket a = after_stat a a.stat

-- The members that `start` sets.
pub record Startup : Type 0 where
  pub error : Option StartError
  pub listening : Bool
  pub bound_socket_path : Bytes
  pub running : Bool

abbrev pub fails : StartError → Bool → Bytes → Startup
fails e listening path = record {
  error = some e;
  listening = listening;
  bound_socket_path = path;
  running = false;
}

-- `start` behind `remove_stale_socket`
unfoldable pub open_endpoint : StartAnswers → Bytes → Startup
open_endpoint a path =
    if not a.socket
    then fails socket_failed false []
    else if not a.bind
    then fails bind_failed true []
    else if not a.chmod
    then fails chmod_failed true path
    else if not a.listen
    then fails listen_failed true path
    else if not a.epoll
    then fails epoll_failed true path
    else if not a.eventfd
    then fails eventfd_failed true path
    else if not a.register
    then fails register_failed true path
    else record { error = none; listening = true; bound_socket_path = path; running = true }

abbrev pub behind_removal : StartAnswers → Bytes → Option StartError × Bool → Startup × Bool
behind_removal a path (some e, unlinked) = (fails e false [], unlinked)
behind_removal a path (none, unlinked) = (open_endpoint a path, unlinked)

abbrev pub behind_validate : StartAnswers → Bytes → Option ConfigError → Startup × Bool
behind_validate a path (some e) = (fails (invalid_config e) false [], false)
behind_validate a path none = behind_removal a path (remove_stale_socket a)

-- With whether `unlink` was called.
unfoldable pub start : ℕ → ServerConfig → StartAnswers → Startup × Bool
start sun_path_size config a = behind_validate a config.socket_path (validate sun_path_size config)

-- Does `~Server` unlink the socket file? `stop_listening` does, if there is a bound path.
unfoldable pub unlinks_at_end : Startup → Bool
unlinks_at_end s = elim s.bound_socket_path [ [] ↦ false | c ∷ path ↦ true ]

-- The path is free, or a dead socket that could be removed.
abbrev pub IsFree : StartAnswers → Type 0
IsFree a =
    (a.stat ≡ absent)
    ⊎ ((a.stat ≡ file true) × ((a.probe_socket ≡ true) × ((a.probe ≡ refused) × (a.unlink ≡ true))))

-- What `start` may do to the path.
pub record IsStarted (n : ℕ) (config : ServerConfig) (a : StartAnswers) (s : Startup)
    (unlinked : Bool) : Type 0 where
  pub removed : unlinked ≡ true → (a.stat ≡ file true) × (a.probe ≡ refused)
  pub owned : unlinks_at_end s ≡ true → IsFree a × (a.bind ≡ true)
  pub running : s.running ≡ true → (s.error ≡ none) × ((validate n config ≡ none) × IsFree a)
  pub failed : s.error ≢ none → s.running ≡ false

probe_free : (b : Bool) (p : Probe) → (after_probe b p).0 ≡ none → (p ≡ refused) × (b ≡ true)
probe_free b listens e = absurd cc
probe_free b unclear e = absurd cc
probe_free true refused e = (refl, refl)
probe_free false refused e = absurd cc

probe_removed : (b : Bool) (p : Probe) → (after_probe b p).1 ≡ true → p ≡ refused
probe_removed b listens e = absurd cc
probe_removed b unclear e = absurd cc
probe_removed b refused e = refl

-- The path of `remove_stale_socket`, by what `stat` said.
stat-IsFree : (a : StartAnswers) (s : Stat) → a.stat ≡ s → (after_stat a s).0 ≡ none → IsFree a
stat-IsFree a absent h e = inl h
stat-IsFree a unknown h e = absurd cc
stat-IsFree a (file false) h e = absurd cc
stat-IsFree a (file true) h e = elim (Bool-cases a.probe_socket) [
  | inr k ↦ absurd (ground (arith, k, e))
  | inl k ↦ let (p, u) = probe_free a.unlink a.probe (ground (arith, k, e)) in inr (h, (k, (p, u)))
]

stat_removed :
    (a : StartAnswers) (s : Stat)
    → a.stat ≡ s
    → (after_stat a s).1 ≡ true
    → (a.stat ≡ file true) × (a.probe ≡ refused)
stat_removed a absent h e = absurd cc
stat_removed a unknown h e = absurd cc
stat_removed a (file false) h e = absurd cc
stat_removed a (file true) h e = elim (Bool-cases a.probe_socket) [
  | inr k ↦ absurd (ground (arith, k, e))
  | inl k ↦ (h, probe_removed a.unlink a.probe (ground (arith, k, e)))
]

-- What the rest of `start` does.
record IsOpened (a : StartAnswers) (s : Startup) : Type 0 where
  owned : unlinks_at_end s ≡ true → a.bind ≡ true
  running : s.running ≡ true → s.error ≡ none
  failed : s.error ≢ none → s.running ≡ false

fails-IsOpened :
    (a : StartAnswers) (e : StartError) (listening : Bool) (path : Bytes)
    → (path ≡ []) ⊎ (a.bind ≡ true)
    → IsOpened a (fails e listening path)
unfolding unlinks_at_end
fails-IsOpened a e listening path (inl h) = record {
  owned = λ k. absurd (cc (h, k));
  running = λ k. absurd cc;
  failed = λ k. refl;
}
fails-IsOpened a e listening path (inr h) = record {
  owned = λ k. h;
  running = λ k. absurd cc;
  failed = λ k. refl;
}

IsOpened-if :
    (a : StartAnswers) (b : Bool) (x y : Startup)
    → IsOpened a x
    → (b ≡ true → IsOpened a y)
    → IsOpened a (if not b then x else y)
IsOpened-if a true x y v f = f refl
IsOpened-if a false x y v f = v

open_endpoint-IsOpened : (a : StartAnswers) (path : Bytes) → IsOpened a (open_endpoint a path)
unfolding open_endpoint
open_endpoint-IsOpened a path =
    IsOpened-if a a.socket _ _ (fails-IsOpened a socket_failed false [] (inl refl)) (λ s.
      IsOpened-if a a.bind _ _ (fails-IsOpened a bind_failed true [] (inl refl)) (λ b.
        IsOpened-if a a.chmod _ _ (fails-IsOpened a chmod_failed true path (inr b)) (λ c.
          IsOpened-if a a.listen _ _ (fails-IsOpened a listen_failed true path (inr b)) (λ l.
            IsOpened-if a a.epoll _ _ (fails-IsOpened a epoll_failed true path (inr b)) (λ e.
              IsOpened-if a a.eventfd _ _ (fails-IsOpened a eventfd_failed true path (inr b)) (λ v.
                IsOpened-if a a.register _ _ (fails-IsOpened a register_failed true path (inr b))
                  (λ r. record {
                    owned = λ k. b;
                    running = λ k. refl;
                    failed = λ k. absurd (k refl);
                  })))))))

module _ (n : ℕ) (config : ServerConfig) (a : StartAnswers) where
  refused-IsStarted :
      (e : StartError) (unlinked : Bool)
      → (unlinked ≡ true → (a.stat ≡ file true) × (a.probe ≡ refused))
      → IsStarted n config a (fails e false []) unlinked
  unfolding unlinks_at_end
  refused-IsStarted e unlinked f = record {
    removed = f;
    owned = λ k. absurd cc;
    running = λ k. absurd cc;
    failed = λ k. refl;
  }

  removal-IsStarted :
      (r : Option StartError × Bool)
      → remove_stale_socket a ≡ r
      → validate n config ≡ none
      → IsStarted n config a
          (behind_removal a config.socket_path r).0
          (behind_removal a config.socket_path r).1
  unfolding remove_stale_socket
  removal-IsStarted (some e, unlinked) h ok =
      refused-IsStarted e unlinked
        (λ k. stat_removed a a.stat refl (ap (λ (r : Option StartError × Bool). r.1) h ∙ k))
  removal-IsStarted (none, unlinked) h ok =
      let free = stat-IsFree a a.stat refl (ap (λ (r : Option StartError × Bool). r.0) h) in
      let v = open_endpoint-IsOpened a config.socket_path in
      record {
        removed =
            λ k. stat_removed a a.stat refl (ap (λ (r : Option StartError × Bool). r.1) h ∙ k);
        owned = λ k. (free, v.owned k);
        running = λ k. (v.running k, (ok, free));
        failed = v.failed;
      }

  -- For any configuration and any answers of the system calls, start unlinks a file only if it is
  -- a socket on which nobody listens; the destructor unlinks the socket file only if start found
  -- the path free, or freed it in this way, and has bound it; and start leaves the server running
  -- only if it returns no error, the configuration is valid and the path was free or freed, and
  -- never when it returns an error.
  pub start-IsStarted : IsStarted n config a (start n config a).0 (start n config a).1
  unfolding start
  start-IsStarted = by_problem (validate n config) refl
    where
      by_problem :
          (o : Option ConfigError)
          → validate n config ≡ o
          → IsStarted n config a
              (behind_validate a config.socket_path o).0
              (behind_validate a config.socket_path o).1
      by_problem (some e) h = refused-IsStarted (invalid_config e) false (λ k. absurd cc)
      by_problem none h = removal-IsStarted (remove_stale_socket a) refl h
