-- ===== src/Docker/Client.antt =====
-- `DockerClient` of src/docker_api.cpp: the parsing of the container list, and the four calls over
-- the HTTP client, as an `IDockerClient`.
pub mod Accepted
pub mod Written
pub mod Delivered
pub mod Strikes
pub mod Connections
use chaos_forger.Prelude.{
  ℕ, Bool, true, false, not, List, [], ◌∷◌, ◌++◌, Option, none, some, Bytes, text, length, take,
  is_empty, to_string, if◌then◌else◌, ℤ, Result, ok, err,
}
use chaos_forger.Double.{Double}
use chaos_forger.Log.{LogLevel, warn}
use chaos_forger.Json.{Json, Items, null, boolean, number, string, array, object, nil, cons, find}
use chaos_forger.Json.Parser.{parse}
use chaos_forger.Docker.Api.{Container, Strike, IDockerClient}
use chaos_forger.Docker.Paths.{
  is_valid_container_id, containers_json_path, normalize_container_name, stop_container_path,
  kill_container_path, ping_path,
}
use chaos_forger.Http.Parser.Fields.{HttpResponse, is_ok}
use chaos_forger.Http.Client.{Transport, request}

module _ (d : Double) where
  -- The names that are strings and not empty once normalized.
  unfoldable pub names_of : Items d → List Bytes
  names_of nil = []
  names_of (cons (string raw) more) =
      let name = normalize_container_name raw in
      let rest = names_of more in if is_empty name then rest else name ∷ rest
  names_of (cons _ more) = names_of more

  unfoldable pub names_field : Option (Json d) → List Bytes
  unfolding names_of
  names_field (some (array items)) = names_of items
  names_field _ = []

  -- A descriptive field: its text, or the empty default.
  unfoldable pub text_field : Option (Json d) → Bytes
  text_field (some (string s)) = s
  text_field _ = []

  -- An entry of the list is a container, or is skipped with a WARN line.
  pub data Entry : Type 0 where
    listed : Container → Entry
    skipped : Bytes → Entry

  unfoldable pub container_of : Json d → Bytes → Container
  unfolding names_field text_field
  container_of entry id = record {
    id = id;
    names = names_field (find d entry (text "Names"));
    image = text_field (find d entry (text "Image"));
    state = text_field (find d entry (text "State"));
    status = text_field (find d entry (text "Status"));
  }

  unfoldable pub entry_of : Json d → Option (Json d) → Entry
  unfolding container_of
  entry_of entry (some (string id)) =
      if not (is_valid_container_id id)
      then skipped (
          text "container list: entry with malformed Id (len="
          ++ (to_string (length id) ++ text "), skipping"))
      else listed (container_of entry id)
  entry_of entry _ = skipped (text "container list: entry without string 'Id' field, skipping")

  pub record Listing : Type 0 where
    pub containers : List Container
    pub warnings : List Bytes

  unfoldable pub add_entry : Entry → Listing → Listing
  add_entry (listed c) l = record l { containers = c ∷ l.containers }
  add_entry (skipped line) l = record l { warnings = line ∷ l.warnings }

  -- The loop over the entries.
  unfoldable pub entries : Items d → Listing
  unfolding entry_of add_entry
  entries nil = record { containers = []; warnings = [] }
  entries (cons entry more) = add_entry (entry_of entry (find d entry (text "Id"))) (entries more)

  unfoldable pub listing_of : Result (Json d) → Result Listing
  unfolding entries
  listing_of (err e) = err (text "cannot parse container list JSON: " ++ e)
  listing_of (ok (array items)) = ok (entries items)
  listing_of (ok _) = err (text "container list: expected a JSON array")

  unfoldable pub parse_container_list : Bytes → Result Listing
  unfolding listing_of
  parse_container_list body = listing_of (parse d body)

-- `make_transport` gives the fresh transport of a request, over the same peer; `reads` is how many
-- passes the receive loop of the model may make.
module _ (d : Double) (t : Transport) (make_transport : t.Conn → t.Conn) (reads : ℕ) where
  -- The peer with what has been done to it, and the log.
  pub record Session : Type 0 where
    pub peer : t.Conn
    pub logged : List (LogLevel × Bytes)

  abbrev warn_all : List Bytes → List (LogLevel × Bytes)
  warn_all [] = []
  warn_all (line ∷ more) = (warn, line) ∷ warn_all more

  -- A request on a client of its own. Without enough passes it is an error with no message.
  unfoldable pub exchange : Bytes → Bytes → Session → Result HttpResponse × Session
  exchange method path s = elim (request t reads method path [] (make_transport s.peer)) [
    | none ↦ (err [], s)
    | some (answer, peer) ↦ (answer, record s { peer = peer })
  ]

  -- The tail of a message about a body: at most `n` bytes of it.
  unfoldable pub body_excerpt : ℕ → Bytes → Bytes
  body_excerpt n body = if is_empty body then [] else text " -- " ++ take n body

  unfoldable pub strike_of : Bytes → Result HttpResponse → Strike
  unfolding body_excerpt
  strike_of what (err e) = record { ok = false; err = what ++ (text ": " ++ e); http_status = 0 }
  strike_of what (ok resp) =
      if not (is_ok resp)
      then record {
        ok = false;
        err = what ++ (text ": HTTP " ++ (to_string resp.status ++ body_excerpt 200 resp.body));
        http_status = resp.status;
      }
      else record { ok = true; err = []; http_status = resp.status }

  unfoldable pub post_container_action : Bytes → Bytes → Session → Strike × Session
  unfolding strike_of
  post_container_action path what s =
      let (answer, after) = exchange (text "POST") path s in (strike_of what answer, after)

  unfoldable pub stop_container : Bytes → ℤ → Session → Strike × Session
  unfolding post_container_action
  stop_container id timeout_seconds s = elim (stop_container_path id timeout_seconds) [
    | none ↦ (
      record { ok = false; err = text "stop: invalid container id or timeout"; http_status = 0 },
      s,
    )
    | some path ↦ post_container_action path (text "stop") s
  ]

  unfoldable pub kill_container : Bytes → Session → Strike × Session
  unfolding post_container_action
  kill_container id s = elim (kill_container_path id) [
    | none ↦ (record { ok = false; err = text "kill: invalid container id"; http_status = 0 }, s)
    | some path ↦ post_container_action path (text "kill") s
  ]

  unfoldable pub list_answer : Result HttpResponse → Result (Listing d)
  unfolding body_excerpt
  list_answer (err e) = err (text "listing containers: " ++ e)
  list_answer (ok resp) =
      if not (is_ok resp)
      then err (
          text "listing containers: HTTP " ++ (to_string resp.status ++ body_excerpt 300 resp.body))
      else parse_container_list d resp.body

  unfoldable pub list_containers : Session → Result (List Container) × Session
  unfolding list_answer
  list_containers s =
      let (answer, after) = exchange (text "GET") containers_json_path s in
      elim (list_answer answer) [
        | err e ↦ (err e, after)
        | ok listing ↦ (
          ok listing.containers,
          record after { logged = after.logged ++ warn_all listing.warnings },
        )
      ]

  unfoldable pub ping_answer : Result HttpResponse → Result (Unit {0})
  ping_answer (err e) = err e
  ping_answer (ok resp) =
      if not (is_ok resp) then err (text "ping: HTTP " ++ to_string resp.status) else ok tt

  unfoldable pub ping : Session → Result (Unit {0}) × Session
  unfolding ping_answer
  ping s = let (answer, after) = exchange (text "GET") ping_path s in (ping_answer answer, after)

  abbrev pub docker_client : IDockerClient
  docker_client = record {
    Client = Session;
    list_containers = list_containers;
    stop_container = stop_container;
    kill_container = kill_container;
    ping = ping;
  }
