-- ===== src/Docker/Client/Connections.antt =====
-- The connections of `DockerClient`, one for each request.
use chaos_forger.Prelude.{
  ℕ, [], text, Option, none, some, Bytes, ℤ, Option-cases, Result-cases, inl, inr, Result, err,
}
use chaos_forger.Double.{Double}
use chaos_forger.Docker.Paths.{
  containers_json_path, stop_container_path, kill_container_path, ping_path,
}
use chaos_forger.Http.Parser.Fields.{HttpResponse}
use chaos_forger.Http.Client.{Transport, request}
use chaos_forger.Http.Client.Lifecycle.{AllDown}
use chaos_forger.Docker.Client.{
  Session, exchange, post_container_action, stop_container, kill_container, list_answer,
  list_containers, ping, docker_client,
}
use chaos_forger.Engine.ClientInvariant.{IsKept}

module _ (d : Double) (t : Transport) (make_transport : t.Conn → t.Conn) (reads : ℕ)
    (P : t.Conn → Type 0) where
  -- A request on a fresh transport keeps the property of the connections.
  abbrev pub Keeps : Bytes → Bytes → Type 0
  Keeps method path =
      (c : t.Conn) → P c → AllDown P (request t reads method path [] (make_transport c))

  abbrev pub AtRest : Session d t make_transport reads → Type 0
  AtRest s = P s.peer

  exchange-AtRest :
      (method path : Bytes) (s : Session d t make_transport reads)
      → Keeps method path
      → AtRest s
      → AtRest (exchange d t make_transport reads method path s).1
  unfolding exchange
  exchange-AtRest method path s keeps h =
      by_result (request t reads method path [] (make_transport s.peer)) (keeps s.peer h)
    where
      by_result :
          (o : Option (Result HttpResponse × t.Conn))
          → AllDown P o
          → AtRest
              (elim o as (λ _. Result HttpResponse × Session d t make_transport reads) [
                | none ↦ (err [], s)
                | some (answer, peer) ↦ (answer, record s { peer = peer })
              ]).1
      by_result none k = h
      by_result (some (answer, peer)) k = k

  pub list_containers-AtRest :
      (s : Session d t make_transport reads)
      → Keeps (text "GET") containers_json_path
      → AtRest s
      → AtRest (list_containers d t make_transport reads s).1
  unfolding list_containers
  list_containers-AtRest s keeps h =
      let after = exchange-AtRest (text "GET") containers_json_path s keeps h in
      let answer = (exchange d t make_transport reads (text "GET") containers_json_path s).0 in
      elim (Result-cases (list_answer d t make_transport reads answer)) [
        | inl (e, q) ↦ rw (q, list_containers) after
        | inr (listing, q) ↦ rw (q, list_containers) after
      ]

  pub ping-AtRest :
      (s : Session d t make_transport reads)
      → Keeps (text "GET") ping_path
      → AtRest s
      → AtRest (ping d t make_transport reads s).1
  unfolding ping
  ping-AtRest s keeps h = exchange-AtRest (text "GET") ping_path s keeps h

  module _ (keeps : (method path : Bytes) → Keeps method path) where
    stop_container-AtRest :
        (id : Bytes) (timeout_seconds : ℤ) (s : Session d t make_transport reads)
        → AtRest s
        → AtRest (stop_container d t make_transport reads id timeout_seconds s).1
    unfolding stop_container post_container_action
    stop_container-AtRest id timeout_seconds s h =
        elim (Option-cases (stop_container_path id timeout_seconds)) [
          | inl e ↦ rw (e, stop_container) h
          | inr (path, e) ↦
              rw (e, stop_container) (exchange-AtRest (text "POST") path s (keeps _ path) h)
        ]

    kill_container-AtRest :
        (id : Bytes) (s : Session d t make_transport reads)
        → AtRest s
        → AtRest (kill_container d t make_transport reads id s).1
    unfolding kill_container post_container_action
    kill_container-AtRest id s h = elim (Option-cases (kill_container_path id)) [
      | inl e ↦ rw (e, kill_container) h
      | inr (path, e) ↦
          rw (e, kill_container) (exchange-AtRest (text "POST") path s (keeps _ path) h)
    ]

    -- What every request keeps, every call of the client keeps.
    pub docker_client-IsKept : IsKept (docker_client d t make_transport reads) AtRest
    docker_client-IsKept = record {
      by_list = λ s h. list_containers-AtRest s (keeps _ _) h;
      by_stop = stop_container-AtRest;
      by_kill = kill_container-AtRest;
      by_ping = λ s h. ping-AtRest s (keeps _ _) h;
    }
