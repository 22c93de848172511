-- ===== src/Server/Exchange.antt =====
-- A client and the server together: a request of `CacheClient`, over the wire, through the parser and
-- a worker, and its response back.
use local_cache_service.Base.{Bytes}
use local_cache_service.Protocol
use local_cache_service.Protocol.{Opcode, Status, Request, Response, Limits}
use local_cache_service.Cache.Refinement.{view}
use local_cache_service.Cache.Defs.{Cache}
use local_cache_service.Server.Jobs.{Service, answer}
use local_cache_service.Server.Serving.{serve}
use local_cache_service.Client.Defs.{Client, request_of}

module _ (s : Service) (c : Client) (limits : Limits) (o : Opcode) (key value : Bytes) where
  abbrev request : Request
  request = request_of c o key value

  -- what the reference answers
  abbrev expected : Response
  expected =
      answer request (serve s.cache.limits (view s.cache) s.stats request o).status
        (serve s.cache.limits (view s.cache) s.stats request o).value
