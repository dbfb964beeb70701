-- ===== src/Gateway/Server/Tests.antt =====
-- The server at work.
use prime_server.Base.{ℕ, Str, none, some, [], ◌∷◌, ◌≡◌, refl, lit, ok, err, gateway, Result}
use prime_server.Auth.{Claims}
use prime_server.Objects.{Object}
use prime_server.Gateway.Paths.{parse_developer_blob_path}
use prime_server.Gateway.Site.{Details, content, object, Response, Site}
use prime_server.Gateway.Services.Memory.{World}
use prime_server.Gateway.Requests.{require_session}
use prime_server.Gateway.Developer.{put_blob, handle_blobs}
use prime_server.Gateway.Server.{handle_request, post_session}
use prime_server.Gateway.Server.Served.{IsServed, handle_request-IsServed}
use prime_server.Gateway.Server.Sessions.{IsLoggedIn, post_session-IsLoggedIn}
use prime_server.Gateway.Server.Unexpiring.{put_blob-unreadable}
use prime_server.Gateway.Server.Samples.{
  setup, site, waiting, get_content, put_me, get_me, log_in_late, returned, object_in, put,
}

shown_five : (handle_request setup [] get_content site).1.body ≡ content (5 ∷ [])
unfolding handle_request prime_server.Base.starts_with lit prime_server.Gateway.Server.respond
    prime_server.Gateway.Server.public_route prime_server.Base.str_beq
    prime_server.Gateway.Paths.match_blob_path prime_server.Gateway.Content.serve_content
    prime_server.Registry.Methods.get_blob prime_server.Base.lookup
    prime_server.Gateway.Upload.upload_registered_blob prime_server.Base.Action.◌>>=◌
    prime_server.Base.Action.lift prime_server.Registry.Calls.run prime_server.Registry.Calls.apply
    prime_server.Registry.Methods.create_blob_named prime_server.Registry.Methods.is_invalid_name
    prime_server.Base.byte_length prime_server.Base.includes_unit prime_server.Base.ends_with_unit
    prime_server.Registry.Methods.register_provider prime_server.Registry.Methods.empty
    prime_server.Base.insert prime_server.Registry.Methods.create_blob
    prime_server.Gateway.Admission.check_registration prime_server.Gateway.normalize_hex
    prime_server.Base.to_lower prime_server.Base.strip_0x prime_server.Erasure.encode
    prime_server.Erasure.pad_input prime_server.Gateway.Admission.check_encoding
    prime_server.Base.hex prime_server.Gateway.Upload.place_encoded_blob
    prime_server.Base.Action.reads prime_server.Gateway.Upload.place_shards
    prime_server.Gateway.Upload.place_shard prime_server.Gateway.Upload.choose_provider
    prime_server.Gateway.Upload.ensure_placed prime_server.Gateway.Services.Memory.call
    prime_server.Registry.Methods.assign_shard prime_server.Gateway.Upload.upload_shard
    prime_server.Base.Action.pure prime_server.Gateway.Upload.confirm
    prime_server.Gateway.Upload.existing_acknowledgement
    prime_server.Registry.Methods.acknowledge_shard prime_server.Registry.Methods.contradicts
    prime_server.Gateway.Upload.context_of prime_server.Ack.acknowledgement_context
    prime_server.Base.decimal prime_server.Ack.normalize_hex prime_server.Gateway.Upload.finish
    prime_server.Registry.Methods.finalize_blob prime_server.Gateway.Upload.settle
    prime_server.Gateway.Read.read_blob prime_server.Gateway.Read.assemble
    prime_server.Gateway.Read.read_shard prime_server.Gateway.Read.read_provider_shard
    prime_server.Erasure.decode prime_server.Erasure.decode_erased prime_server.Base.sorted_set
    prime_server.Erasure.verified prime_server.Gateway.Http.serve_range
    prime_server.Range.parse_range
shown_five = refl

handle_request-IsServed_example : IsServed setup site get_content (5 ∷ [])
handle_request-IsServed_example =
    handle_request-IsServed setup get_content site [] (5 ∷ []) shown_five

abbrev kept : Object Details × Str
kept = object_in (returned put.1).body

abbrev claims : Claims
claims = record { address = some (lit "0xab"); issued_at = some 0; expires_at = some 9000000 }

put_done : put_blob setup (lit "0xab") (lit "me") put_me waiting ≡ (put.0, ok (returned put.1))
unfolding put_blob prime_server.Base.Action.◌>>=◌ prime_server.Base.Action.lift
    prime_server.Gateway.Requests.check_upload
    prime_server.Gateway.Registration.require_blob_id_header prime_server.Gateway.is_identifier
    prime_server.Gateway.normalize_hex prime_server.Base.to_lower prime_server.Base.strip_0x
    prime_server.Base.lookup prime_server.Base.str_beq lit
    prime_server.Gateway.Registration.assert_registration_matches_request
    prime_server.Registry.Methods.get_blob prime_server.Registry.Calls.run
    prime_server.Registry.Calls.apply prime_server.Registry.Methods.create_blob_named
    prime_server.Registry.Methods.is_invalid_name prime_server.Base.byte_length
    prime_server.Base.includes_unit prime_server.Base.starts_with prime_server.Base.ends_with_unit
    prime_server.Registry.Methods.register_provider prime_server.Registry.Methods.empty
    prime_server.Base.insert prime_server.Registry.Methods.create_blob
    prime_server.Gateway.Registration.check_registered
    prime_server.Gateway.Registration.check_content
    prime_server.Gateway.Registration.parse_header_integer
    prime_server.Gateway.Registration.check_claims prime_server.Gateway.Http.read_request_body
    prime_server.Gateway.Http.read_chunks prime_server.Gateway.Developer.on_world
    prime_server.Gateway.Upload.upload_registered_blob
    prime_server.Gateway.Admission.check_registration prime_server.Erasure.encode
    prime_server.Erasure.pad_input prime_server.Gateway.Admission.check_encoding
    prime_server.Base.hex prime_server.Gateway.Upload.place_encoded_blob
    prime_server.Base.Action.reads prime_server.Gateway.Upload.place_shards
    prime_server.Gateway.Upload.place_shard prime_server.Gateway.Upload.choose_provider
    prime_server.Gateway.Upload.ensure_placed prime_server.Gateway.Services.Memory.call
    prime_server.Registry.Methods.assign_shard prime_server.Gateway.Upload.upload_shard
    prime_server.Base.Action.pure prime_server.Gateway.Upload.confirm
    prime_server.Gateway.Upload.existing_acknowledgement
    prime_server.Registry.Methods.acknowledge_shard prime_server.Registry.Methods.contradicts
    prime_server.Gateway.Upload.context_of prime_server.Ack.acknowledgement_context
    prime_server.Base.decimal prime_server.Ack.normalize_hex prime_server.Gateway.Upload.finish
    prime_server.Registry.Methods.finalize_blob prime_server.Gateway.Upload.settle
    prime_server.Gateway.Developer.store_object prime_server.Objects.put_object
put_done = refl

put_shown : (returned put.1).body ≡ object kept.0 kept.1
unfolding put_blob prime_server.Base.Action.◌>>=◌ prime_server.Base.Action.lift
    prime_server.Gateway.Requests.check_upload
    prime_server.Gateway.Registration.require_blob_id_header prime_server.Gateway.is_identifier
    prime_server.Gateway.normalize_hex prime_server.Base.to_lower prime_server.Base.strip_0x
    prime_server.Base.lookup prime_server.Base.str_beq lit
    prime_server.Gateway.Registration.assert_registration_matches_request
    prime_server.Registry.Methods.get_blob prime_server.Registry.Calls.run
    prime_server.Registry.Calls.apply prime_server.Registry.Methods.create_blob_named
    prime_server.Registry.Methods.is_invalid_name prime_server.Base.byte_length
    prime_server.Base.includes_unit prime_server.Base.starts_with prime_server.Base.ends_with_unit
    prime_server.Registry.Methods.register_provider prime_server.Registry.Methods.empty
    prime_server.Base.insert prime_server.Registry.Methods.create_blob
    prime_server.Gateway.Registration.check_registered
    prime_server.Gateway.Registration.check_content
    prime_server.Gateway.Registration.parse_header_integer
    prime_server.Gateway.Registration.check_claims prime_server.Gateway.Http.read_request_body
    prime_server.Gateway.Http.read_chunks prime_server.Gateway.Developer.on_world
    prime_server.Gateway.Upload.upload_registered_blob
    prime_server.Gateway.Admission.check_registration prime_server.Erasure.encode
    prime_server.Erasure.pad_input prime_server.Gateway.Admission.check_encoding
    prime_server.Base.hex prime_server.Gateway.Upload.place_encoded_blob
    prime_server.Base.Action.reads prime_server.Gateway.Upload.place_shards
    prime_server.Gateway.Upload.place_shard prime_server.Gateway.Upload.choose_provider
    prime_server.Gateway.Upload.ensure_placed prime_server.Gateway.Services.Memory.call
    prime_server.Registry.Methods.assign_shard prime_server.Gateway.Upload.upload_shard
    prime_server.Base.Action.pure prime_server.Gateway.Upload.confirm
    prime_server.Gateway.Upload.existing_acknowledgement
    prime_server.Registry.Methods.acknowledge_shard prime_server.Registry.Methods.contradicts
    prime_server.Gateway.Upload.context_of prime_server.Ack.acknowledgement_context
    prime_server.Base.decimal prime_server.Ack.normalize_hex prime_server.Gateway.Upload.finish
    prime_server.Registry.Methods.finalize_blob prime_server.Gateway.Upload.settle
    prime_server.Gateway.Developer.store_object prime_server.Objects.put_object
put_shown = refl

put_lasting : kept.0.fields.expires_at ≡ 0
unfolding put_blob prime_server.Base.Action.◌>>=◌ prime_server.Base.Action.lift
    prime_server.Gateway.Requests.check_upload
    prime_server.Gateway.Registration.require_blob_id_header prime_server.Gateway.is_identifier
    prime_server.Gateway.normalize_hex prime_server.Base.to_lower prime_server.Base.strip_0x
    prime_server.Base.lookup prime_server.Base.str_beq lit
    prime_server.Gateway.Registration.assert_registration_matches_request
    prime_server.Registry.Methods.get_blob prime_server.Registry.Calls.run
    prime_server.Registry.Calls.apply prime_server.Registry.Methods.create_blob_named
    prime_server.Registry.Methods.is_invalid_name prime_server.Base.byte_length
    prime_server.Base.includes_unit prime_server.Base.starts_with prime_server.Base.ends_with_unit
    prime_server.Registry.Methods.register_provider prime_server.Registry.Methods.empty
    prime_server.Base.insert prime_server.Registry.Methods.create_blob
    prime_server.Gateway.Registration.check_registered
    prime_server.Gateway.Registration.check_content
    prime_server.Gateway.Registration.parse_header_integer
    prime_server.Gateway.Registration.check_claims prime_server.Gateway.Http.read_request_body
    prime_server.Gateway.Http.read_chunks prime_server.Gateway.Developer.on_world
    prime_server.Gateway.Upload.upload_registered_blob
    prime_server.Gateway.Admission.check_registration prime_server.Erasure.encode
    prime_server.Erasure.pad_input prime_server.Gateway.Admission.check_encoding
    prime_server.Base.hex prime_server.Gateway.Upload.place_encoded_blob
    prime_server.Base.Action.reads prime_server.Gateway.Upload.place_shards
    prime_server.Gateway.Upload.place_shard prime_server.Gateway.Upload.choose_provider
    prime_server.Gateway.Upload.ensure_placed prime_server.Gateway.Services.Memory.call
    prime_server.Registry.Methods.assign_shard prime_server.Gateway.Upload.upload_shard
    prime_server.Base.Action.pure prime_server.Gateway.Upload.confirm
    prime_server.Gateway.Upload.existing_acknowledgement
    prime_server.Registry.Methods.acknowledge_shard prime_server.Registry.Methods.contradicts
    prime_server.Gateway.Upload.context_of prime_server.Ack.acknowledgement_context
    prime_server.Base.decimal prime_server.Ack.normalize_hex prime_server.Gateway.Upload.finish
    prime_server.Registry.Methods.finalize_blob prime_server.Gateway.Upload.settle
    prime_server.Gateway.Developer.store_object prime_server.Objects.put_object
put_lasting = refl

path_me :
    parse_developer_blob_path setup.crypto.get_address get_me.pathname
    ≡ ok (some (lit "0xab", some (lit "me")))
unfolding parse_developer_blob_path prime_server.Base.starts_with lit
    prime_server.Base.Uri.decode_uri_component prime_server.Base.Uri.decode_from
    prime_server.Base.Uri.step prime_server.Gateway.Paths.normalize_account
    prime_server.Gateway.Paths.normalize_blob_name prime_server.Base.byte_length
    prime_server.Base.includes_unit prime_server.Base.ends_with_unit
path_me = refl

session_me : require_session setup put.0.manager get_me ≡ ok claims
unfolding require_session prime_server.Auth.verify_token prime_server.Gateway.Requests.bearer_token
    prime_server.Base.str_beq prime_server.Base.to_lower prime_server.Base.lookup lit
    prime_server.Auth.check_claims prime_server.Auth.normalize_address
session_me = refl

put_blob-unreadable_example :
    handle_blobs setup get_me put.0 ≡ (put.0, err (gateway 410 (lit "blob has expired")))
put_blob-unreadable_example =
    put_blob-unreadable setup (lit "0xab") (lit "me") put_me waiting put.0 (returned put.1) kept.0
      kept.1 put_done put_shown put_lasting get_me claims path_me session_me

abbrev late : Site (World (Unit {0})) × Result Response
late = post_session setup log_in_late site

logged_in_late : post_session setup log_in_late site ≡ (late.0, ok (returned late.1))
unfolding post_session prime_server.Base.Action.◌>>=◌ prime_server.Base.Action.lift
    prime_server.Gateway.Server.read_json_body prime_server.Gateway.Http.read_request_body
    prime_server.Base.lookup prime_server.Gateway.Http.read_chunks prime_server.Auth.create_session
    prime_server.Auth.begin_session prime_server.Base.str_beq lit prime_server.Base.to_lower
    prime_server.Auth.finish_session
logged_in_late = refl

post_session-IsLoggedIn_example : IsLoggedIn setup log_in_late site late.0 (returned late.1)
post_session-IsLoggedIn_example =
    post_session-IsLoggedIn setup log_in_late site late.0 (returned late.1) logged_in_late
