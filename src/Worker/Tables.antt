-- ===== src/Worker/Tables.antt =====
-- The tables of handlers of network/worker.cpp, one for each state, and the call through them.
use mosss.Common.{
  ℕ, List, [], ◌∷◌, ltb, if◌then◌else◌, Result, ok, err, undefined, ◌>>=◌, Option, none, some,
  get_elem?,
}
use mosss.Connection.{State, handshake_state, status_state, login_state, config_state, play_state}
use mosss.Worker.Session.{PacketParser}
use mosss.Worker.Handlers.{
  handshake, status_request, ping_request, login_start, encryption_response, ignored,
  login_acknowledged, client_information, plugin_message, acknowledge_finish_config,
}

-- The handlers of the state `PLAY`, all with an empty body.
pub data PlayParser : Type 0 where
  play_confirm_teleportation : PlayParser
  play_query_block_entity_tag : PlayParser
  play_bundle_item_selected : PlayParser
  play_change_difficulty : PlayParser
  play_acknowledge_message : PlayParser
  play_chat_command : PlayParser
  play_signed_chat_command : PlayParser
  play_chat_message : PlayParser
  play_player_session : PlayParser
  play_chunk_batch_received : PlayParser
  play_client_status : PlayParser
  play_client_tick_end : PlayParser
  play_client_information : PlayParser
  play_command_suggestions_request : PlayParser
  play_acknowledge_configuration : PlayParser
  play_click_container_button : PlayParser
  play_click_container : PlayParser
  play_close_container : PlayParser
  play_change_container_slot_state : PlayParser
  play_cookie_response : PlayParser
  play_plugin_message : PlayParser
  play_debug_sample_subscription : PlayParser
  play_edit_book : PlayParser
  play_query_entity_tag : PlayParser
  play_interact : PlayParser
  play_jigsaw_generate : PlayParser
  play_keep_alive : PlayParser
  play_lock_difficulty : PlayParser
  play_set_player_position : PlayParser
  play_set_player_position_rotation : PlayParser
  play_set_player_rotation : PlayParser
  play_set_player_movement_flags : PlayParser
  play_move_vehicle : PlayParser
  play_paddle_boat : PlayParser
  play_pick_item_from_block : PlayParser
  play_pick_item_from_entity : PlayParser
  play_ping_request : PlayParser
  play_place_recipe : PlayParser
  play_player_abilities : PlayParser
  play_player_action : PlayParser
  play_player_command : PlayParser
  play_player_input : PlayParser
  play_player_loaded : PlayParser
  play_pong : PlayParser
  play_change_recipe_book_settings : PlayParser
  play_set_seen_recipe : PlayParser
  play_rename_item : PlayParser
  play_resource_pack_response : PlayParser
  play_seen_advancements : PlayParser
  play_select_trade : PlayParser
  play_set_beacon_effect : PlayParser
  play_set_held_item : PlayParser
  play_program_command_block : PlayParser
  play_program_command_block_minecart : PlayParser
  play_set_creative_mode_slot : PlayParser
  play_program_jigsaw_block : PlayParser
  play_program_structure_block : PlayParser
  play_set_test_block : PlayParser
  play_update_sign : PlayParser
  play_swing_arm : PlayParser
  play_teleport_to_entity : PlayParser
  play_test_instance_block_action : PlayParser
  play_use_item_on : PlayParser
  play_use_item : PlayParser

-- The handlers by name; those that only log are one constructor each.
pub data Parser : Type 0 where
  handshake_parser : Parser
  status_request_parser : Parser
  ping_request_parser : Parser
  login_start_parser : Parser
  encryption_response_parser : Parser
  login_plugin_response_parser : Parser
  login_acknowledged_parser : Parser
  cookie_response_parser : Parser
  client_information_parser : Parser
  cookie_response_config_parser : Parser
  plugin_message_parser : Parser
  acknowledge_finish_config_parser : Parser
  keep_alive_config_parser : Parser
  pong_parser : Parser
  resource_pack_response_parser : Parser
  known_packs_parser : Parser
  play_parser : PlayParser → Parser

unfoldable pub call_parser : Parser → PacketParser
call_parser handshake_parser = handshake
call_parser status_request_parser = status_request
call_parser ping_request_parser = ping_request
call_parser login_start_parser = login_start
call_parser encryption_response_parser = encryption_response
call_parser login_plugin_response_parser = ignored
call_parser login_acknowledged_parser = login_acknowledged
call_parser cookie_response_parser = ignored
call_parser client_information_parser = client_information
call_parser cookie_response_config_parser = ignored
call_parser plugin_message_parser = plugin_message
call_parser acknowledge_finish_config_parser = acknowledge_finish_config
call_parser keep_alive_config_parser = ignored
call_parser pong_parser = ignored
call_parser resource_pack_response_parser = ignored
call_parser known_packs_parser = ignored
call_parser (play_parser p) = ignored

unfoldable pub handshaking : List Parser
handshaking = handshake_parser ∷ []

unfoldable pub status : List Parser
status = status_request_parser ∷ ping_request_parser ∷ []

unfoldable pub login : List Parser
login =
    login_start_parser ∷ encryption_response_parser ∷ login_plugin_response_parser
    ∷ login_acknowledged_parser ∷ cookie_response_parser ∷ []

unfoldable pub config : List Parser
config =
    client_information_parser ∷ cookie_response_config_parser ∷ plugin_message_parser
    ∷ acknowledge_finish_config_parser ∷ keep_alive_config_parser ∷ pong_parser
    ∷ resource_pack_response_parser ∷ known_packs_parser ∷ []

unfoldable pub play : List Parser
play =
    play_parser play_confirm_teleportation
    ∷ play_parser play_query_block_entity_tag
    ∷ play_parser play_bundle_item_selected
    ∷ play_parser play_change_difficulty
    ∷ play_parser play_acknowledge_message
    ∷ play_parser play_chat_command
    ∷ play_parser play_signed_chat_command
    ∷ play_parser play_chat_message
    ∷ play_parser play_player_session
    ∷ play_parser play_chunk_batch_received
    ∷ play_parser play_client_status
    ∷ play_parser play_client_tick_end
    ∷ play_parser play_client_information
    ∷ play_parser play_command_suggestions_request
    ∷ play_parser play_acknowledge_configuration
    ∷ play_parser play_click_container_button
    ∷ play_parser play_click_container
    ∷ play_parser play_close_container
    ∷ play_parser play_change_container_slot_state
    ∷ play_parser play_cookie_response
    ∷ play_parser play_plugin_message
    ∷ play_parser play_debug_sample_subscription
    ∷ play_parser play_edit_book
    ∷ play_parser play_query_entity_tag
    ∷ play_parser play_interact
    ∷ play_parser play_jigsaw_generate
    ∷ play_parser play_keep_alive
    ∷ play_parser play_lock_difficulty
    ∷ play_parser play_set_player_position
    ∷ play_parser play_set_player_position_rotation
    ∷ play_parser play_set_player_rotation
    ∷ play_parser play_set_player_movement_flags
    ∷ play_parser play_move_vehicle
    ∷ play_parser play_paddle_boat
    ∷ play_parser play_pick_item_from_block
    ∷ play_parser play_pick_item_from_entity
    ∷ play_parser play_ping_request
    ∷ play_parser play_place_recipe
    ∷ play_parser play_player_abilities
    ∷ play_parser play_player_action
    ∷ play_parser play_player_command
    ∷ play_parser play_player_input
    ∷ play_parser play_player_loaded
    ∷ play_parser play_pong
    ∷ play_parser play_change_recipe_book_settings
    ∷ play_parser play_set_seen_recipe
    ∷ play_parser play_rename_item
    ∷ play_parser play_resource_pack_response
    ∷ play_parser play_seen_advancements
    ∷ play_parser play_select_trade
    ∷ play_parser play_set_beacon_effect
    ∷ play_parser play_set_held_item
    ∷ play_parser play_program_command_block
    ∷ play_parser play_program_command_block_minecart
    ∷ play_parser play_set_creative_mode_slot
    ∷ play_parser play_program_jigsaw_block
    ∷ play_parser play_program_structure_block
    ∷ play_parser play_set_test_block
    ∷ play_parser play_update_sign
    ∷ play_parser play_swing_arm
    ∷ play_parser play_teleport_to_entity
    ∷ play_parser play_test_instance_block_action
    ∷ play_parser play_use_item_on
    ∷ play_parser play_use_item
    ∷ []

unfoldable pub parsers : State → List Parser
unfolding handshaking status login config play
parsers handshake_state = handshaking
parsers status_state = status
parsers login_state = login
parsers config_state = config
parsers play_state = play

-- An element of an array; outside of it the access is undefined.
abbrev pub element : Option Parser → Result Parser
element none = err undefined
element (some p) = ok p

-- `parsers[state][packet_id]`; `packet_id` is a `char`, negative from 128 on.
unfoldable pub parser_at : State → ℕ → Result Parser
unfolding parsers
parser_at state packet_id =
    if ltb 127 packet_id then err undefined else element (get_elem? (parsers state) packet_id)

unfoldable pub dispatch : ℕ → PacketParser
unfolding parser_at call_parser
dispatch packet_id io s = do p ← parser_at s.conn.state packet_id; call_parser p io s
