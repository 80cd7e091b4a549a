-- ===== src/Report/Groups/Keys.antt =====
-- The indices that src/pinba_update_report.h joins from two names separate their groups.
use pinba_engine.Common.{
  All, CString, [], append_assoc, arith, length, length-append, nat_eq, refl, string_eq, sym, ℕ,
  ◌++◌, ◌+◌, ◌<◌, ◌^◌, ◌∙◌, ◌∷◌, ◌≡◌, ◌≢◌,
}
use pinba_engine.Floats.{Floats}
use pinba_engine.Text.{
  append_delimiter, append_delimiter_fits, append_truncated, append_truncated_fits, copy_truncated,
  copy_truncated_fits,
}
use pinba_engine.Record.{StatsRecord}
use pinba_engine.Report.Groups.{report4_index, report5_index, report6_index, slash}

-- The names fit the arrays of `pinba_stats_record`.
pub record IsStored {fl : Floats} (r : StatsRecord fl) : Type 0 where
  pub script_fits : length r.script_name < 129
  pub server_fits : length r.server_name < 65
  pub host_fits : length r.hostname < 65

abbrev pub Lacks : ℕ → CString → Type 0
Lacks c s = All (λ x. x ≢ c) s

joined-injective :
    (c : ℕ) (a b : CString) {p q : CString}
    → Lacks c a
    → Lacks c b
    → a ++ c ∷ p ≡ b ++ c ∷ q
    → (a ≡ b) × (p ≡ q)
joined-injective c [] [] l m e = (refl, cc)
joined-injective c [] (y ∷ b) l m e = absurd (ground arith)
joined-injective c (x ∷ a) [] l m e = absurd (ground arith)
joined-injective c (x ∷ a) (y ∷ b) {p} {q} l m e =
    let tails : a ++ c ∷ p ≡ b ++ c ∷ q = cc in
    let h = joined-injective c a b l.1 m.1 tails in (ground (arith, h.0), h.1)

-- An index of two names that fit.
joined : ℕ → ℕ → CString → CString → CString
joined size c a b = append_truncated size (append_delimiter size (copy_truncated size a) c) b

joined_fits :
    (size c : ℕ) (a b : CString)
    → length a + length b + 1 < size
    → size < 2 ^ 64
    → joined size c a b ≡ a ++ c ∷ b
unfolding joined
joined_fits size c a b h w =
    rw (copy_truncated_fits size a (omega arith) w, append_delimiter_fits size a c (omega arith) w)
      (append_truncated_fits size (a ++ c ∷ []) b (omega (arith, length-append a (c ∷ []))) w
        ∙ append_assoc a (c ∷ []) b)

separates :
    (size : ℕ) (a b p q : CString)
    → length a + length p + 1 < size
    → length b + length q + 1 < size
    → size < 2 ^ 64
    → Lacks slash a
    → Lacks slash b
    → joined size slash a p ≡ joined size slash b q
    → (a ≡ b) × (p ≡ q)
separates size a b p q h k w l m e =
    joined-injective slash a b l m
      (sym (joined_fits size slash a p h w) ∙ e ∙ joined_fits size slash b q k w)

-- For records whose names fit their arrays and whose host and server names have no slash, the
-- reports by server and script, by host and script, and by host and server give two records one
-- index only if both of their names agree.
pub joined_reports-separate :
    {fl : Floats} (r q : StatsRecord fl)
    → IsStored r
    → IsStored q
    → Lacks slash r.hostname × Lacks slash q.hostname
    → Lacks slash r.server_name × Lacks slash q.server_name
    → (report4_index r ≡ report4_index q
        → (r.server_name ≡ q.server_name) × (r.script_name ≡ q.script_name))
      × (report5_index r ≡ report5_index q
          → (r.hostname ≡ q.hostname) × (r.script_name ≡ q.script_name))
      × (report6_index r ≡ report6_index q
          → (r.hostname ≡ q.hostname) × (r.server_name ≡ q.server_name))
unfolding report4_index report5_index report6_index joined
joined_reports-separate r q f g host server = (
  λ e.
      separates 195 r.server_name q.server_name r.script_name q.script_name
        (omega (arith, f.script_fits, f.server_fits)) (omega (arith, g.script_fits, g.server_fits))
        (omega arith) server.0 server.1 e,
  λ e.
      separates 195 r.hostname q.hostname r.script_name q.script_name
        (omega (arith, f.script_fits, f.host_fits)) (omega (arith, g.script_fits, g.host_fits))
        (omega arith) host.0 host.1 e,
  λ e.
      separates 131 r.hostname q.hostname r.server_name q.server_name
        (omega (arith, f.server_fits, f.host_fits)) (omega (arith, g.server_fits, g.host_fits))
        (omega arith) host.0 host.1 e,
)
