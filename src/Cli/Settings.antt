-- ===== src/Cli/Settings.antt =====
-- Application.cpp, `initialize`: the settings with which the client runs.
use chain_db.Base.{◌*◌, ◌%◌, ◌^◌, ◌≡◌, refl, ap, Bool, some, List, ◌∷◌, All}
use chain_db.Base.Bytes.{Bytes, text, bytes_eq}
use chain_db.Base.Int.{to_size_t}
use chain_db.System.Stoi.{stoi}
use chain_db.System.Arguments.{Parsed, accepted, rejected, thrown, assign, parse_args}
use chain_db.System.Arguments.Accepts.{parse_args-WellFormed}
use chain_db.System.Arguments.Settles.{
  last_value, int_value, Assigns, accepted-same, set_int-put, parse_args-folds,
}
use chain_db.Cli.Keys.{Commanded, Commanded-WellFormed}
use chain_db.Cli.{Application, new_application, handlers, initialize, with_client}

abbrev is_true : Bytes → Bool
is_true value = bytes_eq value (text "true")

abbrev verbatim : Bytes → Bytes
verbatim value = value

-- Each setting is what the last value for its key says, or else what it was in `a`.
abbrev pub settings_after : List Bytes → Application → Application
settings_after args a = record {
  server_addr = last_value (text "--addr") verbatim args a.server_addr;
  server_port = last_value (text "--port") int_value args a.server_port;
  timeout = last_value (text "--timeout") int_value args a.timeout;
  is_ping_request = last_value (text "--ping") is_true args a.is_ping_request;
  is_create_chain_request =
      last_value (text "--create-chain") is_true args a.is_create_chain_request;
  is_remove_chain_request =
      last_value (text "--remove-chain") is_true args a.is_remove_chain_request;
  is_add_block_request = last_value (text "--add-block") is_true args a.is_add_block_request;
  is_get_block_request = last_value (text "--get-block") is_true args a.is_get_block_request;
  is_get_blocks_request = last_value (text "--get-blocks") is_true args a.is_get_blocks_request;
  is_verify_chain_request =
      last_value (text "--verify-chain") is_true args a.is_verify_chain_request;
  is_get_chain_header_request =
      last_value (text "--get-header") is_true args a.is_get_chain_header_request;
  is_get_chain_keys_request =
      last_value (text "--get-keys") is_true args a.is_get_chain_keys_request;
  is_get_chain_info_request =
      last_value (text "--get-info") is_true args a.is_get_chain_info_request;
  chain_id = last_value (text "--chain-id") int_value args a.chain_id;
  block_id = last_value (text "--block-id") int_value args a.block_id;
  password = last_value (text "--password") verbatim args a.password;
  payload = last_value (text "--data") verbatim args a.payload;
  client = a.client;
}

handlers-Assigns : All (λ p. Assigns settings_after p.0 p.1) handlers
unfolding assign bytes_eq
handlers-Assigns = (
  λ v a b e. accepted-same _ b e,
  (
    λ v a b e. set_int-put _ (stoi v) a b e,
    (
      λ v a b e. set_int-put _ (stoi v) a b e,
      (
        λ v a b e. accepted-same _ b e,
        (
          λ v a b e. accepted-same _ b e,
          (
            λ v a b e. accepted-same _ b e,
            (
              λ v a b e. accepted-same _ b e,
              (
                λ v a b e. accepted-same _ b e,
                (
                  λ v a b e. accepted-same _ b e,
                  (
                    λ v a b e. accepted-same _ b e,
                    (
                      λ v a b e. accepted-same _ b e,
                      (
                        λ v a b e. accepted-same _ b e,
                        (
                          λ v a b e. accepted-same _ b e,
                          (
                            λ v a b e. set_int-put _ (stoi v) a b e,
                            (
                              λ v a b e. set_int-put _ (stoi v) a b e,
                              (
                                λ v a b e. accepted-same _ b e,
                                (λ v a b e. accepted-same _ b e, tt),
                              ),
                            ),
                          ),
                        ),
                      ),
                    ),
                  ),
                ),
              ),
            ),
          ),
        ),
      ),
    ),
  ),
)

-- The settings of a client, the pointer to which it talks included.
abbrev pub settings_of : List Bytes → Application
settings_of args =
    let a = settings_after args new_application in
    record a {
      client = some (record {
        addr = a.server_addr;
        port = to_size_t a.server_port;
        timeout = (to_size_t a.timeout * 1000) % 2 ^ 64;
      });
    }

parse_args-settings :
    (program : Bytes) (args : List Bytes) (r : Parsed × Application)
    → parse_args handlers (program ∷ args) new_application ≡ r
    → r.0 ≡ accepted
    → r ≡ (accepted, settings_after args new_application)
parse_args-settings program args (rejected, a) e f = absurd (cc f)
parse_args-settings program args (thrown, a) e f = absurd (cc f)
parse_args-settings program args (accepted, a) e f =
    ap (λ x. (accepted, x))
      (parse_args-folds settings_after handlers program args new_application a (λ t. refl)
        (λ k value rest t. refl) handlers-Assigns e)

-- If the arguments of the client are pairs of one of its seventeen keys and a value, which is a
-- number where the key takes one, `initialize` accepts them; each setting then is what the last
-- value for its own key says, or else the constructor's value; and the client is made for the
-- address, the port and the timeout in milliseconds.
pub initialize-settings :
    (program : Bytes) (args : List Bytes)
    → Commanded args
    → initialize (program ∷ args) new_application ≡ (accepted, settings_of args)
unfolding initialize
initialize-settings program args h = ap with_client (
    parse_args-settings program args _ refl (
      (parse_args-WellFormed handlers program args new_application).1
        (Commanded-WellFormed args h)))
