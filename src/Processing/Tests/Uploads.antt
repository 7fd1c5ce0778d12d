-- ===== src/Processing/Tests/Uploads.antt =====
-- An upload to the database in memory.
use notai_api.Base.{==_refl, [], arith, none, refl, ◌∷◌, ◌≡◌, ◌≤◌, ◌⊎◌}
use notai_api.Base.Int.{pos, ◌≤ℤ◌}
use notai_api.Base.Text.{Text, codes, text_eq_iff, trim_space}
use notai_api.Errors.{Err, err, ok}
use notai_api.Media.Entity.{max_bytes_for}
use notai_api.Media.Files.{is_media_object_key}
use notai_api.Media.Types.{image, pending_upload}
use notai_api.Memory.{
  Memory, memory_of, memory_store, memory_store-IsLawful, memory_store-IsReliable,
}
use notai_api.Processing.Ports.{Ports}
use notai_api.Processing.Receive.{ProcessUploadCommand, Received, receive}
use notai_api.Processing.Receive.Bounds.{receive_bounded}
use notai_api.Processing.Tests.{ids_from, stuck_content}
use notai_api.Processing.Upload.{process_upload}
use notai_api.Processing.Upload.Reports.{process_upload_lem}
use notai_api.Processing.Upload.Settling.{IsAccepted, IsFaithful, IsRefused}

abbrev key : Text
key = codes "a/media/k.png"

abbrev waiting : Memory
waiting =
    let m = memory_of stuck_content in
    record m { media = record m.media { status = pending_upload; object_key = key } }

-- Objects of three bytes; no quotas.
abbrev memory_ports : Ports Memory
memory_ports = record {
  get_object = λ k s. ok (1 ∷ 2 ∷ 3 ∷ []);
  delete_object = λ k s. s;
  put_thumbnail = λ k bytes s. ok s;
  generate_jpeg = λ bytes. ok bytes;
  usage = none;
  text_of = λ e. codes "failed";
  text_of_uuid = λ i. codes "id";
}

memory_ports-IsFaithful : IsFaithful memory_store memory_ports
memory_ports-IsFaithful = record {
  key_of_found = λ {k} {s} h. ground (arith, text_eq_iff k s.media.object_key);
  found_by_key = λ {k} {s} h. ground (arith, ==_refl s.media.id);
  saves = λ c s. (record s { content = record c { events = [] } }, refl);
  kept_by_save = λ i h. ground arith;
  kept_by_delete = λ i k s. refl;
  kept_by_thumbnail = λ i h. ground arith;
}

abbrev command : ProcessUploadCommand
command = record { object_key = key; content_type = []; size = pos 0 }

abbrev received : Received
received = record { size = pos 3; content_type = codes "image/png"; raw = 1 ∷ 2 ∷ 3 ∷ [] }

receive_bounded_example :
    (pos 0 ≤ℤ pos 3)
    × (pos 3 ≤ℤ pos (max_bytes_for image))
    × (3 ≤ max_bytes_for image)
    × (pos 3 ≡ pos 3)
unfolding receive trim_space
receive_bounded_example =
    receive_bounded memory_ports command key waiting.media waiting received refl

process_upload_lem_example :
    (t : Memory) × (((r : Received) × (receive memory_ports command key waiting.media waiting
          ≡ ok r)
        × (process_upload memory_store memory_ports 500 ids_from command waiting ≡ (ok tt, t))
        × IsAccepted memory_store memory_ports 500 ids_from 2 r.size t)
      ⊎ ((e : Err) × (process_upload memory_store memory_ports 500 ids_from command waiting
            ≡ (err e, t))
          × IsRefused memory_store memory_ports 500 ids_from 2 e t))
unfolding trim_space is_media_object_key
process_upload_lem_example =
    process_upload_lem memory_store memory_ports 500 ids_from memory_store-IsLawful
      memory_store-IsReliable memory_ports-IsFaithful command waiting.media waiting refl refl refl
      (omega arith) refl
