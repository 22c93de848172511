-- ===== src/CommandLine/Exits.antt =====
-- Every way in which the command line client ends.
use local_cache_service.Base.{◌≡◌, List, ◌∷◌, Option, none, some, Bytes}
use local_cache_service.Client.Defs
use local_cache_service.Client.Defs.{Client, StatsResult, Send, connect, malformed_stats}
use local_cache_service.CommandLine.Defs.{Ending, Parsed, arguments, World}
use local_cache_service.CommandLine.Outcomes.{IsEnding}

-- Every ending that there is.
abbrev Ends : World → Parsed → Option Ending → Type 0
Ends w p none = Unit
Ends w p (some e) = IsEnding w p e

module _ (w : World) (path command : Bytes) (args : List Bytes) (c : Client)
    (reached : connect w.sun_path_size w.answers (Defs.init path) ≡ (c, none)) where
  abbrev parsed : Parsed
  parsed = arguments path (command ∷ args)
