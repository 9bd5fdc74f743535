-- ===== src/OutputLimits.antt =====
-- agent_os/output_limits.py: a text cut to a number of bytes, with a marker in front.
pub mod Bytes
mod Tests
use agent_os_langgraph.Prelude.{
  ℕ, ◌-◌, ◌*◌, ◌≡◌, Bool, true, false, List, [], ◌∷◌, ◌++◌, leb, ltb, if◌then◌else◌, length, all,
  take, Result, ok, err, value_error,
}
use agent_os_langgraph.Text.{Str, text}
use agent_os_langgraph.Text.Decimal.{show_nat}
use agent_os_langgraph.Text.Utf8.{is_scalar, encode, decode_ignore}

abbrev pub bash_output_max_bytes : ℕ
bash_output_max_bytes = 100 * 1024

abbrev pub dispatcher_output_max_bytes : ℕ
dispatcher_output_max_bytes = 50 * 1024

-- `f"[truncated {n} bytes]\n"`
unfoldable pub marker : ℕ → Str
unfolding show_nat
marker n = text "[truncated " ++ show_nat n ++ text " bytes]" ++ 10 ∷ []

-- The marker and what is retained.
abbrev pub marked_rest : ℕ → Str → Str
marked_rest total retained = marker (total - length (encode retained)) ++ retained

abbrev pub within_budget : ℕ → List ℕ → Str × Bool
within_budget max_bytes encoded =
    let reserved = length (encode (marker (length encoded))) in
    if ltb max_bytes reserved
    then ([], true)
    else (marked_rest (length encoded) (decode_ignore (take (max_bytes - reserved) encoded)), true)

-- `truncate_utf8`, for a bound that is not negative; a surrogate cannot be encoded.
unfoldable pub truncate_utf8 : Str → ℕ → Result (Str × Bool)
unfolding marker encode
truncate_utf8 s max_bytes =
    if all is_scalar s
    then ok (
        if leb (length (encode s)) max_bytes
        then (s, false)
        else within_budget max_bytes (encode s))
    else err (value_error (text "surrogates not allowed"))
