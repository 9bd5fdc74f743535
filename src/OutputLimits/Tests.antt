-- ===== src/OutputLimits/Tests.antt =====
-- A text of thirty characters of two bytes, cut to forty-one bytes.
use agent_os_langgraph.Prelude.{◌≤◌, ◌≡◌, refl, true, ◌∷◌, ◌++◌, ok, length, ltb}
use agent_os_langgraph.Text.{Str, text}
use agent_os_langgraph.Text.Utf8.{encode}
use agent_os_langgraph.OutputLimits.{truncate_utf8}
use agent_os_langgraph.OutputLimits.Bytes.{truncate_utf8_le}

abbrev sample : Str
sample = text "éééééééééééééééééééééééééééééé"

abbrev cut : Str
cut = text "[truncated 40 bytes]" ++ 10 ∷ text "éééééééééé"

truncates : truncate_utf8 sample 41 ≡ ok (cut, true)
unfolding truncate_utf8 text agent_os_langgraph.Text.Utf8.decode_from
truncates = refl

truncate_utf8_le_example : (length (encode cut) ≤ 41) × (true ≡ ltb 41 (length (encode sample)))
truncate_utf8_le_example = truncate_utf8_le sample 41 cut true truncates
