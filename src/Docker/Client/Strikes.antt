-- ===== src/Docker/Client/Strikes.antt =====
-- What the engine may rely on of a stop or a kill through the Docker client.
use chaos_forger.Prelude.{
  ℕ, ◌≤◌, ◌<◌, ◌≡◌, ◌↔◌, ◌⊎◌, refl, true, false, none, some, Option-cases, inl, inr, Bytes, text, ℤ,
  arith, Result, ok, err,
}
use chaos_forger.Double.{Double}
use chaos_forger.Docker.Paths.{stop_container_path}
use chaos_forger.Http.Parser.Fields.{HttpResponse}
use chaos_forger.Http.Client.{Transport}
use chaos_forger.Docker.Client.{Session, exchange, strike_of, post_container_action, stop_container}

-- A response with a status of success.
abbrev pub Succeeded : Result HttpResponse → Type 0
Succeeded (ok resp) = (200 ≤ resp.status) × (resp.status < 300)
Succeeded (err e) = ⊥

-- The status that is handed back: the response's, or 0 with none.
abbrev pub status_of : Result HttpResponse → ℕ
status_of (ok resp) = resp.status
status_of (err e) = 0

module _ (d : Double) (t : Transport) (make_transport : t.Conn → t.Conn) (reads : ℕ) where
  strike_of_lem :
      (what : Bytes) (answer : Result HttpResponse)
      → let strike = strike_of d t make_transport reads what answer in
        ((strike.ok ≡ true) ↔ Succeeded answer) × (strike.http_status ≡ status_of answer)
  unfolding strike_of
  strike_of_lem what (err e) = ((λ h. cc, λ h. absurd h), refl)
  strike_of_lem what (ok resp) = ground arith

  -- A stop of a container whose id or time-out has no request target fails without a request.
  -- Any other makes one POST to that target, succeeds exactly when a response with a status of 200
  -- to 299 comes, and hands back the status of the response, or 0 if none came.
  pub stop_container_lem :
      (id : Bytes) (timeout : ℤ) (s : Session d t make_transport reads)
      → let (strike, after) = stop_container d t make_transport reads id timeout s in
        ((stop_container_path id timeout ≡ none)
          × (strike.ok ≡ false)
          × (strike.http_status ≡ 0)
          × (after ≡ s))
        ⊎ ((path : Bytes) × (stop_container_path id timeout ≡ some path)
            × (let (answer, sent) = exchange d t make_transport reads (text "POST") path s in
                ((strike.ok ≡ true) ↔ Succeeded answer)
                × (strike.http_status ≡ status_of answer)
                × (after ≡ sent)))
  unfolding stop_container post_container_action
  stop_container_lem id timeout s = elim (Option-cases (stop_container_path id timeout)) [
    | inl e ↦ rw (e, stop_container) (inl (refl, refl, refl, refl))
    | inr (path, e) ↦
        rw (e, stop_container)
          (let (works, status) =
              strike_of_lem (text "stop")
                (exchange d t make_transport reads (text "POST") path s).0 in
            inr (path, refl, (works, status, refl)))
  ]
