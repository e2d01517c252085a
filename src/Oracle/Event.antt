-- ===== src/Oracle/Event.antt =====
-- adpulse/common.py (`scope`, `business_key`) and the events and rules that adpulse/oracle.py reads.
-- An event that contracts/event.schema.json accepts is a value of `Event`; `decode` makes the reads
-- that the oracle makes of the accepted dictionary.
use ad_pulse.Prelude.{
  ℕ, String, ◌≡◌, refl, List, Option, none, some, ◌==◌, string_eq, if◌then◌else◌,
}
use ad_pulse.Json.{Value, str, num, obj, Fields, get_field}

-- The fields that every event has. `receipt_id` is the key `_receipt_id` that the oracle adds.
pub record Base : Type 0 where
  pub event_id : String
  pub event_time : ℕ
  pub schema_version : ℕ
  pub advertiser_id : String
  pub app_id : String
  pub user_id : String
  pub campaign_id : String
  pub app_version : String
  pub region : Option String
  pub receipt_id : Value

pub record Impression : Type 0 where
  pub base : Base
  pub open base use *
  pub impression_id : String
  pub experiment_id : String
  pub variant : String

pub record Click : Type 0 where
  pub base : Base
  pub open base use *
  pub click_id : String
  pub impression_id : String

pub record Conversion : Type 0 where
  pub base : Base
  pub open base use *
  pub conversion_id : String
  pub click_id : String
  pub value_minor : ℕ
  pub currency : String

pub data Event : Type 0 where
  impression : Impression → Event
  click : Click → Event
  conversion : Conversion → Event

abbrev pub base_of : Event → Base
base_of (impression i) = i.base
base_of (click c) = c.base
base_of (conversion v) = v.base

-- contracts/rules-v1.json; `document` is the whole of it, for its digest.
pub record Rules : Type 0 where
  pub rule_version : String
  pub policy_version : String
  pub schema_versions : List ℕ
  pub effective_from : ℕ
  pub attribution_window_ms : ℕ
  pub window_ms : ℕ
  pub field_mappings : List (String × String)
  pub filter_regions : List String
  pub document : Value

abbrev pub Scope : Type 0
Scope = String × (String × String)

unfoldable pub scope : Base → Scope
scope b = (b.advertiser_id, (b.app_id, b.user_id))

-- advertiser, app, kind and the identifier of that kind
abbrev pub BusinessKey : Type 0
BusinessKey = String × (String × (String × String))

unfoldable pub business_key : Event → BusinessKey
business_key (impression i) = (i.advertiser_id, (i.app_id, ("impression", i.impression_id)))
business_key (click c) = (c.advertiser_id, (c.app_id, ("click", c.click_id)))
business_key (conversion v) = (v.advertiser_id, (v.app_id, ("conversion", v.conversion_id)))

-- `(event["advertiser_id"], event["app_id"], event["event_id"])`
unfoldable pub event_key : Base → Scope
event_key b = (b.advertiser_id, (b.app_id, b.event_id))

infixl 5 ◌>>=◌
abbrev pub ◌>>=◌ : {A B : Type 0} → Option A → (A → Option B) → Option B
none >>= f = none
some a >>= f = f a

pub >>=-eq-some :
    {A B : Type 0} (o : Option A) (f : A → Option B) {b : B}
    → (o >>= f) ≡ some b
    → (a : A) × (o ≡ some a) × (f a ≡ some b)
>>=-eq-some none f h = cc
>>=-eq-some (some a) f h = (a, refl, h)

unfoldable pub text : String → Fields → Option String
text k fs = elim (get_field k fs) [ some v ↦ elim v [ str s ↦ some s | _ ↦ none ] | none ↦ none ]

unfoldable pub number : String → Fields → Option ℕ
number k fs = elim (get_field k fs) [ some v ↦ elim v [ num n ↦ some n | _ ↦ none ] | none ↦ none ]

unfoldable pub decode_base : Value → Fields → Option Base
unfolding text number
decode_base receipt fs = do
  event_id ← text "event_id" fs
  event_time ← number "event_time" fs
  schema_version ← number "schema_version" fs
  advertiser_id ← text "advertiser_id" fs
  app_id ← text "app_id" fs
  user_id ← text "user_id" fs
  campaign_id ← text "campaign_id" fs
  app_version ← text "app_version" fs
  some (record {
    event_id = event_id;
    event_time = event_time;
    schema_version = schema_version;
    advertiser_id = advertiser_id;
    app_id = app_id;
    user_id = user_id;
    campaign_id = campaign_id;
    app_version = app_version;
    region = text "region" fs;
    receipt_id = receipt;
  })

unfoldable pub decode_kind : String → Base → Fields → Option Event
unfolding text number
decode_kind kind b fs =
    if kind == "impression"
    then (do
      i ← text "impression_id" fs
      x ← text "experiment_id" fs
      v ← text "variant" fs
      some (impression (record { base = b; impression_id = i; experiment_id = x; variant = v })))
    else if kind == "click"
    then (do
      c ← text "click_id" fs
      i ← text "impression_id" fs
      some (click (record { base = b; click_id = c; impression_id = i })))
    else if kind == "conversion"
    then (do
      v ← text "conversion_id" fs
      c ← text "click_id" fs
      m ← number "value_minor" fs
      y ← text "currency" fs
      some (
          conversion
            (record { base = b; conversion_id = v; click_id = c; value_minor = m; currency = y })))
    else none

-- `none` where a read would raise a KeyError.
unfoldable pub decode : Value → Value → Option Event
unfolding decode_base decode_kind get_field
decode receipt (obj fs) = do
  b ← decode_base receipt fs
  kind ← text "event_type" fs
  decode_kind kind b fs
decode receipt _ = none
