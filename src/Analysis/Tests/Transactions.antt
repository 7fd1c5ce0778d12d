-- ===== src/Analysis/Tests/Transactions.antt =====
-- The transactions of the analysis over a small database in memory.
use notai_api.Analysis.Admission.{IsStarted, start_analysis_lem}
use notai_api.Analysis.Completion.{start_analysis_succeeds, try_finalize_media_succeeds}
use notai_api.Analysis.Finalize.{IsFinished, try_finalize_media_lem}
use notai_api.Analysis.Handler.{
  finalize, finalize_over, save_content, save_media, start_analysis, start_fresh,
  try_finalize_media,
}
use notai_api.Analysis.MediaVerdict.{aggregate_media_verdict}
use notai_api.Analysis.Tests.{content_of}
use notai_api.Base.{[], arith, false, none, refl, some, true, ◌∷◌, ◌≡◌, ◌⊎◌}
use notai_api.Content.Entity.{Content, is_terminal, pull_events, start_analyzing}
use notai_api.Content.Types.{analyzed, analyzing, human, uploaded}
use notai_api.Database.{with_transaction}
use notai_api.Errors.{ok}
use notai_api.Media.Transitions.{render_global_verdict}
use notai_api.Memory.{
  Memory, memory_of, memory_store, memory_store-IsLawful, memory_store-IsReliable,
}

-- The one content is analyzed, so that the media gets its verdict.
abbrev analyzed_memory : Memory
analyzed_memory = memory_of (content_of analyzed (some human))

try_finalize_media_lem_example :
    let t = (try_finalize_media memory_store true 2 200 9 analyzed_memory).1 in
    ((false ≡ true) × (memory_store.get_media 2 t ≡ ok (some analyzed_memory.media)))
    ⊎ ((false ≡ false) × IsFinished memory_store 2 (analyzed_memory.content ∷ []) t)
unfolding try_finalize_media with_transaction finalize finalize_over is_terminal
    render_global_verdict aggregate_media_verdict save_media
try_finalize_media_lem_example =
    try_finalize_media_lem memory_store memory_store-IsLawful 2 200 9 analyzed_memory
      analyzed_memory.media (analyzed_memory.content ∷ []) (omega arith) refl refl refl

abbrev uploaded_content : Content
uploaded_content = content_of uploaded none

start_analysis_lem_example :
    let c = uploaded_content in
    let d = record c { status = analyzing; updated_at = 200 } in
    ((true ≡ true) × (true ≡ true) × IsStarted memory_store c d) ⊎ ((true ≡ false) × (d ≡ c))
unfolding start_analysis with_transaction start_fresh start_analyzing save_content
start_analysis_lem_example =
    start_analysis_lem memory_store (some (λ client s. none)) (memory_of uploaded_content).media
      uploaded_content uploaded_content
      (record uploaded_content { status = analyzing; updated_at = 200 }) 200 9
      (memory_of uploaded_content) refl refl

try_finalize_media_succeeds_example :
    (try_finalize_media memory_store true 2 200 9 analyzed_memory).0 ≡ ok tt
try_finalize_media_succeeds_example =
    try_finalize_media_succeeds memory_store memory_store-IsReliable 2 200 9 analyzed_memory
      analyzed_memory.media (analyzed_memory.content ∷ []) (omega arith) refl refl refl

start_analysis_succeeds_example :
    let m = memory_of uploaded_content in
    (start_analysis memory_store (some (λ client s. none)) m.media uploaded_content 200 9 m).0
    ≡ ok (record uploaded_content { status = analyzing; updated_at = 200 })
unfolding start_analyzing pull_events
start_analysis_succeeds_example =
    start_analysis_succeeds memory_store memory_store-IsReliable (some (λ client s. none))
      (memory_of uploaded_content).media uploaded_content uploaded_content 200 9
      (memory_of uploaded_content) refl refl refl
