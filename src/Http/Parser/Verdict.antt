-- ===== src/Http/Parser/Verdict.antt =====
-- The result of a parser operation against the state that it leaves.
use chaos_forger.Prelude.{◌≡◌, refl, sym, ap, Bool, true, false, not, Bytes, if_cases, arith}
use chaos_forger.Http.Parser.Fields.{is_error, Parser, fail}

abbrev pub Live : Parser → Type 0
Live p = is_error p.state ≡ false

-- False is returned with the Error state, true with any other.
pub record Agrees (r : Bool × Parser) : Type 0 where
  pub verdict : r.0 ≡ not (is_error r.1.state)

pub accept : (p : Parser) → Live p → Agrees (true, p)
accept p h = record { verdict = sym (ap not h) }

pub fail-Agrees : (msg : Bytes) (p : Parser) → Agrees (fail msg p)
unfolding fail
fail-Agrees msg p = record {
  verdict =
      if_cases (λ (q : Parser). false ≡ not (is_error q.state)) (is_error p.state)
        (λ e. sym (ap not e)) (λ _. refl);
}

pub Live-of : {r : Bool × Parser} → Agrees r → r.0 ≡ true → Live r.1
Live-of {r} a h = ground (arith, a.verdict)
