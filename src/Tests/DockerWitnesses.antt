-- ===== src/Tests/DockerWitnesses.antt =====
-- The theorems about the Docker client, over a scripted connection.
use chaos_forger.Prelude.{
  ◌+◌, ◌≡◌, ◌↔◌, ◌⊎◌, refl, true, false, [], none, some, Bytes, text, length, pos, All, ok,
}
use chaos_forger.Json.{Items, string, array, object, nil, cons, end, member}
use chaos_forger.Json.Parser.{parse, before}
use chaos_forger.Json.Parser.Writer.{print, Writable}
use chaos_forger.Json.Parser.RoundTrip.{parse-print}
use chaos_forger.Docker.Client.{Listing, parse_container_list, Session, exchange, stop_container}
use chaos_forger.Docker.Client.Accepted.{IsAccepted, parse_container_list-IsAccepted}
use chaos_forger.Docker.Client.Strikes.{Succeeded, status_of, stop_container_lem}
use chaos_forger.Docker.Paths.{stop_container_path}
use chaos_forger.Tests.ClientWitnesses.{scripted, script}
use chaos_forger.Tests.Documents.{whole_numeral}
use chaos_forger.Tests.Example.{hundredths, full_id}

-- One container, an entry without an id, and one with a malformed id.
abbrev items : Items hundredths
items =
    cons
      (object (
        member (text "Id") (string full_id)
          (member (text "Names") (array (cons (string (text "/web-1")) nil)) end)))
      (cons (object end) (cons (object (member (text "Id") (string (text "zz")) end)) nil))

abbrev body : Bytes
body = print hundredths whole_numeral (array items)

body-parsed : parse hundredths body ≡ ok (array items)
body-parsed = parse-print hundredths whole_numeral (array items) writable
  where
    writable : Writable hundredths whole_numeral 65 (array items)
    writable =
        unfold Writable in
        unfold before in
        unfold text in ((tt, (refl, tt), ((tt, tt), tt, tt)), (tt, ((tt, tt, tt), tt)))

parse_container_list-IsAccepted_example :
    (l : Listing hundredths) × (parse_container_list hundredths body ≡ ok l)
    × All IsAccepted l.containers
    × (length l.containers + length l.warnings ≡ 3)
parse_container_list-IsAccepted_example =
    parse_container_list-IsAccepted hundredths body items body-parsed

abbrev session : Session hundredths scripted (λ s. s) 2
session = record { peer = script; logged = [] }

stop_container_lem_example :
    let (strike, after) = stop_container hundredths scripted (λ s. s) 2 full_id (pos 10) session in
    ((stop_container_path full_id (pos 10) ≡ none)
      × (strike.ok ≡ false)
      × (strike.http_status ≡ 0)
      × (after ≡ session))
    ⊎ ((path : Bytes) × (stop_container_path full_id (pos 10) ≡ some path)
        × (let (answer, sent) =
              exchange hundredths scripted (λ s. s) 2 (text "POST") path session in
            ((strike.ok ≡ true) ↔ Succeeded answer)
            × (strike.http_status ≡ status_of answer)
            × (after ≡ sent)))
stop_container_lem_example =
    stop_container_lem hundredths scripted (λ s. s) 2 full_id (pos 10) session
