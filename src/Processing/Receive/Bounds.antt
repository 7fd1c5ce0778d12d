-- ===== src/Processing/Receive/Bounds.antt =====
-- How large an upload is that passes the tests.
use notai_api.Base.{arith, if◌then◌else◌, length, ◌≡◌, ◌≤◌}
use notai_api.Base.Int.{pos, ◌≤ℤ◌}
use notai_api.Base.Text.{Text}
use notai_api.Errors.{ok}
use notai_api.Media.Entity.{Media, max_bytes_for}
use notai_api.Processing.Ports.{Ports}
use notai_api.Processing.Receive.{ProcessUploadCommand, Received, receive}
use notai_api.Quota.Assert.{is_positive}

module _ {S : Type 0} (ports : Ports S) where
  -- An upload that passes the tests has a size from 0 up to the limit of its media's type, and no more
  -- bytes are read than that limit; the size is the reported one if that is positive, and else the
  -- number of bytes read.
  pub receive_bounded :
      (cmd : ProcessUploadCommand) (key : Text) (m : Media) (s : S) (r : Received)
      → receive ports cmd key m s ≡ ok r
      → (pos 0 ≤ℤ r.size)
        × (r.size ≤ℤ pos (max_bytes_for m.media_type))
        × (length r.raw ≤ max_bytes_for m.media_type)
        × (r.size ≡ (if is_positive cmd.size then cmd.size else pos (length r.raw)))
  unfolding receive
  receive_bounded cmd key m s r h = ground arith
