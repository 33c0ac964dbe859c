-- ===== src/Corefile/Tests/Ranges.antt =====
-- The theorems on line numbers, ports and addresses at concrete texts.
use zoneroute.Base.{
  ℕ, suc, ◌+◌, ◌≤◌, List, [], ◌∷◌, ◌++◌, some, ◌≡◌, ◌≢◌, refl, subst, arith, inl, inr, Bool-cases,
}
use zoneroute.Base.Lists.{length, All}
use zoneroute.Result.{ok, err}
use zoneroute.Text.{Text, codes, split, same}
use zoneroute.Dict.{Dict, lookup}
use zoneroute.Caddyfile.Sample.{
  Cursor, sample, sample_finite, tokens, add_words, advance, same_line-some,
}
use zoneroute.Dnsname.{canonical}
use zoneroute.Strconv.{itoa}
use zoneroute.Net.{join_host_port}
use zoneroute.Corefile.{bad_index, inspect}
use zoneroute.Corefile.Lines.{HasLines, inspect-InRange}
use zoneroute.Corefile.Key.{parse_key}
use zoneroute.Corefile.Key.RoundTrip.{parse_key-full}
use zoneroute.Render.{Upstream, effective_port, upstream_addr}
use zoneroute.Render.Address.{IsAddress, read_upstream, read_upstream-upstream_addr}

-- The tokens are on the lines from 1 to `n`.
abbrev Numbered : ℕ → List (ℕ × Text) → Type 0
Numbered n ts = All (λ (t : ℕ × Text). (1 ≤ t.0) × (t.0 ≤ n)) ts

add_words-Numbered :
    (n k : ℕ) (ws : List Text) (rest : List (ℕ × Text))
    → 1 ≤ k
    → k ≤ n
    → Numbered n rest
    → Numbered n (add_words k ws rest)
add_words-Numbered n k [] rest low high h = h
add_words-Numbered n k (w ∷ ws) rest low high h =
    let more = add_words-Numbered n k ws rest low high h in
    elim (Bool-cases (same w [])) [ inl e ↦ rw (e) more | inr e ↦ rw (e) ((low, high), more) ]

tokens-Numbered :
    (n k : ℕ) (ls : List Text) → 1 ≤ k → k + length ls ≤ suc n → Numbered n (tokens k ls)
tokens-Numbered n k [] low high = tt
tokens-Numbered n k (l ∷ ls) low high =
    add_words-Numbered n k (split l b' ') (tokens (suc k) ls) low (omega (arith, high))
      (tokens-Numbered n (suc k) ls (omega arith) (omega (arith, high)))

advance-Numbered :
    (n : ℕ) (t : ℕ × Text) (ts : List (ℕ × Text)) (e : Cursor)
    → Numbered n ts
    → advance (record { token = t; rest = ts }) ≡ some e
    → Numbered n e.rest × (1 ≤ e.token.0) × (e.token.0 ≤ n)
advance-Numbered n t [] e h q = absurd (ground (arith, q))
advance-Numbered n t (u ∷ us) e h q =
    let same_cursor : record { token = u; rest = us } ≡ e = ground (arith, q) in
    subst (λ (d : Cursor). Numbered n d.rest × (1 ≤ d.token.0) × (d.token.0 ≤ n)) same_cursor
      (h.1, h.0.0, h.0.1)

sample_lines : HasLines sample
sample_lines = record {
  Within = λ n d. Numbered n d.rest;
  new_within = λ source text. tokens-Numbered _ 1 (split text b'\n') (omega arith) (omega arith);
  next_within = λ n d e w q. advance-Numbered n d.token d.rest e w q;
  next_arg_within =
      λ n d e w q. (advance-Numbered n d.token d.rest e w (same_line-some d (advance d) e q)).0;
}

abbrev server_texts : Dict Text
server_texts = (codes "a.server", codes "import other") ∷ []

inspect-InRange_example :
    inspect sample sample_finite (codes "import custom/*.server\nimport x") server_texts
    ≢ err bad_index
inspect-InRange_example =
    inspect-InRange sample sample_lines sample_finite (codes "import custom/*.server\nimport x")
      server_texts

parse_key-full_example :
    parse_key (codes "tls" ++ (codes "://" ++ join_host_port (codes "::1") (itoa 8853)))
    ≡ ok (record { transport = codes "tls"; zone = canonical (codes "::1"); port = 8853 })
unfolding lookup same zoneroute.Net.has_byte
parse_key-full_example =
    parse_key-full (codes "tls") (codes "::1") 853 8853 refl refl refl (omega arith) (omega arith)

abbrev over_v6 : Upstream
over_v6 = record { address = codes "2001:db8::1"; port = 5353 }

over_v6-IsAddress : IsAddress over_v6.address
unfolding zoneroute.Net.has_byte zoneroute.Net.split_host_port zoneroute.Net.split_plain
    zoneroute.Net.split_last
over_v6-IsAddress = record {
  no_open = refl;
  no_close = refl;
  no_port = (zoneroute.Net.too_many_colons, refl);
}

read_upstream-upstream_addr_example :
    read_upstream (upstream_addr over_v6) ≡ some (over_v6.address, effective_port over_v6.port)
read_upstream-upstream_addr_example =
    read_upstream-upstream_addr over_v6 over_v6-IsAddress (omega arith)
