-- ===== src/Telemetry/Baggage.antt =====
-- The ids and the baggage entry that packages/telemetry-sdk/src/mcp.ts reads back.
use obs_unified.Common.{
  ◌≡◌, refl, ap, ◌∙◌, true, false, [], ◌∷◌, ◌++◌, Option, none, some, All, All-append, length, ◌==◌,
  arith,
}
use obs_unified.Common.Text.{Text, text_eq, truthy, is_space, trim, split_on}
use obs_unified.Telemetry.Headers.{
  every, is_crockford, is_action_id, parse_interaction_header, parse_action_header,
}
use obs_unified.Telemetry.Mcp.{
  interaction_key, read_entry, find_interaction, parse_baggage_interaction_id,
}
use obs_unified.Telemetry.Texts.{
  IsPlain, every_crockford-IsPlain, every_visible-IsPlain, trim_plain, trim_spaceless, spaceless,
  commaless, equalless, split_on_plain, split_on_at,
}

-- What `ACTION_ID_RE` accepts
pub record IsActionId (s : Text) : Type 0 where
  pub long : length s ≡ 26
  pub digits : every is_crockford s ≡ true

module _ (s : Text) (id : IsActionId s) where
  is_action_id_of : is_action_id s ≡ true
  unfolding is_action_id
  is_action_id_of = rw (id.long, id.digits) refl

  trim_id : trim s ≡ s
  trim_id = trim_plain s (every_crockford-IsPlain s id.digits)

pub parse_action_header_id : (s : Text) → IsActionId s → parse_action_header (some s) ≡ some s
unfolding parse_action_header
parse_action_header_id [] id = absurd (omega (arith, id.long))
parse_action_header_id (c ∷ s) id = rw (trim_id (c ∷ s) id) (rw (is_action_id_of (c ∷ s) id) refl)

parse_interaction_header_id : (s : Text) → IsActionId s → parse_interaction_header (some s) ≡ some s
unfolding parse_interaction_header
parse_interaction_header_id [] id = absurd (omega (arith, id.long))
parse_interaction_header_id (c ∷ s) id =
    rw (trim_id (c ∷ s) id) (rw (is_action_id_of (c ∷ s) id) refl)

interaction_key-IsPlain : All IsPlain interaction_key
unfolding every
interaction_key-IsPlain = every_visible-IsPlain interaction_key refl

module _ (decode : Text → Option Text) (key id : Text) (key_plain : All IsPlain key)
    (id_plain : All IsPlain id) where
  -- One entry of a baggage header that names the key
  find_interaction_pair :
      truthy (some key) ≡ true
      → decode key ≡ some key
      → text_eq key interaction_key ≡ true
      → decode id ≡ some id
      → find_interaction decode ((key ++ b'=' ∷ id) ∷ [])
        ≡ some (parse_interaction_header (some id))
  unfolding find_interaction read_entry is_space
  find_interaction_pair nonempty decodes_key same decodes_id =
      let equals : is_space b'=' ≡ false = refl in
      let visible =
        All-append (λ c. is_space c ≡ false) key (b'=' ∷ id) (spaceless key key_plain)
          (equals, spaceless id id_plain) in
      ap (λ entry. read_entry decode (split_on b'=' entry) (some none))
        (trim_spaceless (key ++ b'=' ∷ id) visible)
      ∙ ap (λ parts. read_entry decode parts (some none))
          (split_on_at b'=' key id (equalless key key_plain) (equalless id id_plain))
      ∙ rw nonempty (
          rw (trim_plain key key_plain)
            (rw decodes_key (rw same (rw (trim_plain id id_plain) (rw decodes_id refl)))))

  split_pair : split_on b',' (key ++ b'=' ∷ id) ≡ (key ++ b'=' ∷ id) ∷ []
  split_pair = split_on_plain b',' (key ++ b'=' ∷ id) (
      All-append (λ c. (c == b',') ≡ false) key (b'=' ∷ id) (commaless key key_plain)
        (refl, commaless id id_plain))

module _ (decode : Text → Option Text)
    (decodes_key : decode interaction_key ≡ some interaction_key) where
  pub parse_baggage_pair :
      (id : Text)
      → IsActionId id
      → decode id ≡ some id
      → parse_baggage_interaction_id decode (some (interaction_key ++ b'=' ∷ id)) ≡ some (some id)
  unfolding parse_baggage_interaction_id text_eq
  parse_baggage_pair id valid decodes_id =
      let plain = every_crockford-IsPlain id valid.digits in
      ap (find_interaction decode)
        (split_pair decode interaction_key id interaction_key-IsPlain plain)
      ∙ find_interaction_pair decode interaction_key id interaction_key-IsPlain plain refl
          decodes_key refl decodes_id
      ∙ ap some (parse_interaction_header_id id valid)
