-- ===== src/Campaign/Stream.antt =====
-- What the events of a campaign tell of it.
use notai_api.Base.{
  Bool, List, Option, [], arith, false, if◌then◌else◌, is_empty, is_none, is_some, refl, suc, true,
  ℕ, ◌&&◌, ◌++◌, ◌||◌, ◌∷◌, ◌≡◌,
}
use notai_api.Base.Text.{Text, text_eq}
use notai_api.Base.Values.{Time, Uuid}
use notai_api.Campaign.Entity.{
  apply_background_ready, apply_update, clear_background, default_campaign_name,
  mark_background_failed, new_campaign, new_default_campaign, record_background_updated,
  soft_delete, start_background_upload, validate_schedule,
}
use notai_api.Campaign.Types.{
  BackgroundStatus, Campaign, CampaignEvent, background_none, background_pending,
  campaign_background_updated, campaign_created, campaign_deleted, campaign_updated,
}
use notai_api.Errors.{Result, ok}

-- A call of a method, with the time and the UUID that it draws.
pub data Call : Type 0 where
  apply_update_call : Text → Option Time → Option Time → Time → Uuid → Call
  soft_delete_call : Time → Uuid → Call
  start_background_upload_call : Text → Text → Text → Time → Uuid → Call
  apply_background_ready_call : Text → Text → Time → Uuid → Call
  mark_background_failed_call : Time → Uuid → Call
  clear_background_call : Time → Uuid → Call

unfoldable pub apply : Call → Campaign → Campaign
apply (apply_update_call name start end now eid) c = (apply_update name start end now eid c).0
apply (soft_delete_call now eid) c = (soft_delete now eid c).0
apply (start_background_upload_call key filename ct now eid) c =
    start_background_upload key filename ct now eid c
apply (apply_background_ready_call key ct now eid) c = apply_background_ready key ct now eid c
apply (mark_background_failed_call now eid) c = mark_background_failed now eid c
apply (clear_background_call now eid) c = clear_background now eid c

unfoldable pub run : List Call → Campaign → Campaign
run [] c = c
run (o ∷ os) c = run os (apply o c)

-- What a reader of the events knows of a campaign.
pub record View : Type 0 where
  pub name : Text
  pub start_at : Option Time
  pub end_at : Option Time
  pub status : BackgroundStatus
  pub thumbnail : Text
  pub deletions : ℕ

abbrev pub see : CampaignEvent → View → View
see (campaign_created e) v = record {
  name = e.name;
  start_at = e.start_at;
  end_at = e.end_at;
  status = background_none;
  thumbnail = [];
  deletions = 0;
}
see (campaign_updated e) v = record v { name = e.name; start_at = e.start_at; end_at = e.end_at }
see (campaign_deleted e) v = record v { deletions = suc v.deletions }
see (campaign_background_updated e) v = record v {
  status = e.background_status;
  thumbnail = e.background_thumbnail_key;
}

abbrev pub replay : List CampaignEvent → View → View
replay [] v = v
replay (e ∷ es) v = replay es (see e v)

-- The same, of the campaign itself.
abbrev pub view : Campaign → View
view c = record {
  name = c.name;
  start_at = c.start_at;
  end_at = c.end_at;
  status = c.background_status;
  thumbnail = c.background_thumbnail_key;
  deletions = if is_some c.deleted_at then 1 else 0;
}

replay-append :
    (es : List CampaignEvent) (e : CampaignEvent) (v : View)
    → replay (es ++ e ∷ []) v ≡ see e (replay es v)
replay-append [] e v = refl
replay-append (d ∷ es) e v = replay-append es e (see d v)

abbrev pub is_background_pending : BackgroundStatus → Bool
is_background_pending background_pending = true
is_background_pending _ = false

-- A default campaign is named so, has no schedule and is not deleted; any other one has a schedule
-- that does not end before it starts. An upload is awaited only while the background is pending.
abbrev pub is_sound : Campaign → Bool
is_sound c =
    (if c.is_default
      then text_eq c.name default_campaign_name
        && is_none c.start_at
        && is_none c.end_at
        && is_none c.deleted_at
      else is_none (validate_schedule c.start_at c.end_at))
    && (is_background_pending c.background_status || is_empty c.background_pending_key)

record IsValid (v : View) (c : Campaign) : Type 0 where
  pub sound : is_sound c ≡ true
  pub told : replay c.events v ≡ view c

apply_update-IsValid :
    (name : Text) (start end : Option Time) (now : Time) (eid : Uuid) (v : View) (c : Campaign)
    → IsValid v c
    → IsValid v (apply_update name start end now eid c).0
unfolding apply_update validate_schedule
apply_update-IsValid name start end now eid v c h = grind (arith, replay-append)

soft_delete-IsValid :
    (now : Time) (eid : Uuid) (v : View) (c : Campaign)
    → IsValid v c
    → IsValid v (soft_delete now eid c).0
unfolding soft_delete
soft_delete-IsValid now eid v c h = grind (arith, replay-append)

-- What the methods of the background have in common.
background-IsValid :
    (eid : Uuid) (v : View) (c d : Campaign)
    → IsValid v c
    → is_sound d ≡ true
    → d.events ≡ c.events
    → d.name ≡ c.name
    → d.start_at ≡ c.start_at
    → d.end_at ≡ c.end_at
    → d.deleted_at ≡ c.deleted_at
    → IsValid v (record_background_updated eid d)
unfolding record_background_updated
background-IsValid eid v c d h s a b e f g = grind (arith, replay-append)

apply-IsValid : (o : Call) (v : View) (c : Campaign) → IsValid v c → IsValid v (apply o c)
unfolding apply start_background_upload apply_background_ready mark_background_failed
    clear_background
apply-IsValid (apply_update_call name start end now eid) v c h =
    apply_update-IsValid name start end now eid v c h
apply-IsValid (soft_delete_call now eid) v c h = soft_delete-IsValid now eid v c h
apply-IsValid (start_background_upload_call key filename ct now eid) v c h =
    background-IsValid eid v c _ h (ground (arith, h.sound)) refl refl refl refl refl
apply-IsValid (apply_background_ready_call key ct now eid) v c h =
    background-IsValid eid v c _ h (ground (arith, h.sound)) refl refl refl refl refl
apply-IsValid (mark_background_failed_call now eid) v c h =
    background-IsValid eid v c _ h (ground (arith, h.sound)) refl refl refl refl refl
apply-IsValid (clear_background_call now eid) v c h =
    background-IsValid eid v c _ h (ground (arith, h.sound)) refl refl refl refl refl

run-IsValid : (os : List Call) (v : View) (c : Campaign) → IsValid v c → IsValid v (run os c)
unfolding run
run-IsValid [] v c h = h
run-IsValid (o ∷ os) v c h = run-IsValid os v (apply o c) (apply-IsValid o v c h)

-- The two ways to make a campaign.
pub data Origin : Type 0 where
  of_client : Text → Option Time → Option Time → Origin
  of_default : Origin

abbrev pub make : Origin → Uuid → Time → Uuid → Uuid → Result Campaign
make (of_client name start end) client now id eid = new_campaign name client start end now id eid
make of_default client now id eid = ok (new_default_campaign client now id eid)

make-IsValid :
    (o : Origin) (client : Uuid) (now : Time) (id eid : Uuid) (v : View) {c : Campaign}
    → make o client now id eid ≡ ok c
    → IsValid v c
unfolding new_campaign new_default_campaign validate_schedule
make-IsValid (of_client name start end) client now id eid v h = ground arith
make-IsValid of_default client now id eid v h = ground arith

-- For a campaign that NewCampaign or NewDefaultCampaign makes, and any sequence of calls of its
-- methods, refused ones included: a reader of its events, whatever it knew before, knows its name,
-- its schedule and its background, and has seen exactly one deletion if it is deleted, else none;
-- a default campaign keeps its name, has no schedule and is not deleted, any other one has a
-- schedule that does not end before it starts, and a pending key is there only while the
-- background is pending.
pub run-replays :
    (os : List Call) (o : Origin) (client : Uuid) (now : Time) (id eid : Uuid) (v : View)
    {c : Campaign}
    → make o client now id eid ≡ ok c
    → (replay (run os c).events v ≡ view (run os c)) × (is_sound (run os c) ≡ true)
run-replays os o client now id eid v {c} h =
    let k = run-IsValid os v c (make-IsValid o client now id eid v h) in (k.told, k.sound)
