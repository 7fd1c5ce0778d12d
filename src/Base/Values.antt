-- ===== src/Base/Values.antt =====
-- UUIDs and times. A UUID is a number, and uuid.Nil is 0. A time is the number of nanoseconds since
-- Go's zero time, which is 0; the location that UTC() sets is no part of it.
use notai_api.Base.{ℕ}

abbrev pub Uuid : Type 0
Uuid = ℕ

abbrev pub uuid_nil : Uuid
uuid_nil = 0

abbrev pub Time : Type 0
Time = ℕ
