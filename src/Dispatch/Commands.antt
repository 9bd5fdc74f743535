-- ===== src/Dispatch/Commands.antt =====
-- agent_os/default_registry.py, `parse_tier1_request`: a write command as it is spelled.
use agent_os_langgraph.Prelude.{◌≡◌, refl, ap, ◌∙◌, is_empty, true, false, none, [], ◌∷◌, ◌++◌, ok}
use agent_os_langgraph.Text.{Str, text, mem_str}
use agent_os_langgraph.Text.Split.{colon}
use agent_os_langgraph.Text.Words.{split_mark, split_words}
use agent_os_langgraph.Text.Trim.{
  space, IsTrim, strip_append, strip_cons, is_empty_trim, split_mark-append,
}
use agent_os_langgraph.Schemas.{memory_write_modes}
use agent_os_langgraph.Dispatch.{
  write_arguments, memory_write_arguments, one_text, parse_write, parse_memory_write, mode_and_ref,
}

-- `<left> :: <right>`
abbrev pub marked : Str → Str → Str
marked left right = left ++ space ∷ colon ∷ colon ∷ space ∷ right

-- The path and the content of a write command are read back as they were written, provided that
-- neither is empty, begins or ends with a space, and that the path has no `::`.
pub parse_write-marked :
    (path content : Str)
    → IsTrim path
    → IsTrim content
    → split_mark path ≡ none
    → parse_write (marked path content)
      ≡ ok ((text "path", one_text path) ∷ (text "content", one_text content) ∷ [])
unfolding parse_write
parse_write-marked path content p c m =
    ap write_arguments (split_mark-append path (space ∷ content) m)
    ∙ rw (strip_append path p, strip_cons content c, is_empty_trim path p, is_empty_trim content c)
        refl

-- A memory write with a mode is read back with its ref, content and mode: the mode is one of the
-- known ones, the ref a single word without `::`, and the content neither begins nor ends with a
-- space.
pub parse_memory_write-marked :
    (mode ref content : Str)
    → mem_str mode memory_write_modes ≡ true
    → split_words (mode ++ space ∷ ref) ≡ mode ∷ ref ∷ []
    → IsTrim (mode ++ space ∷ ref)
    → is_empty ref ≡ false
    → IsTrim content
    → split_mark (mode ++ space ∷ ref) ≡ none
    → parse_memory_write (marked (mode ++ space ∷ ref) content)
      ≡ ok (
          (text "ref", one_text ref)
          ∷ (text "content", one_text content)
          ∷ (text "mode", one_text mode)
          ∷ [])
unfolding parse_memory_write mode_and_ref
parse_memory_write-marked mode ref content known words t filled c m =
    ap memory_write_arguments (split_mark-append (mode ++ space ∷ ref) (space ∷ content) m)
    ∙ rw
        (
          strip_append (mode ++ space ∷ ref) t,
          strip_cons content c,
          words,
          is_empty_trim content c,
          known,
          filled,
        )
        refl
