-- ===== src/Cli/Ints.antt =====
-- Application.cpp, `initialize`: the numbers on the command line.
use chain_db.Base.{List, All}
use chain_db.Base.Bytes.{Bytes}
use chain_db.System.Stoi.Numbers.{IsInt}
use chain_db.System.Arguments.{Parsed, accepted, rejected, thrown, parse_args}
use chain_db.System.Arguments.Ranges.{Keeps, parse_args-keeps}
use chain_db.Cli.{Application, handlers, initialize, with_client}

-- The settings of type `int`.
abbrev pub Ints : Application → Type 0
Ints a = IsInt a.server_port × IsInt a.timeout × IsInt a.chain_id × IsInt a.block_id

handlers-Keeps : All (λ p. Keeps Ints p.1) handlers
handlers-Keeps = (
  λ v a k. k,
  (
    λ n a z k. (z, k.1, k.2, k.3),
    (
      λ n a z k. (k.0, z, k.2, k.3),
      (
        λ v a k. k,
        (
          λ v a k. k,
          (
            λ v a k. k,
            (
              λ v a k. k,
              (
                λ v a k. k,
                (
                  λ v a k. k,
                  (
                    λ v a k. k,
                    (
                      λ v a k. k,
                      (
                        λ v a k. k,
                        (
                          λ v a k. k,
                          (
                            λ n a z k. (k.0, k.1, z, k.3),
                            (λ n a z k. (k.0, k.1, k.2, z), (λ v a k. k, (λ v a k. k, tt))),
                          ),
                        ),
                      ),
                    ),
                  ),
                ),
              ),
            ),
          ),
        ),
      ),
    ),
  ),
)

with_client-Ints : (r : Parsed × Application) → Ints r.1 → Ints (with_client r).1
with_client-Ints (accepted, a) k = k
with_client-Ints (rejected, a) k = k
with_client-Ints (thrown, a) k = k

-- Whatever the arguments of the client, and however parsing ends, the port, the timeout, the
-- chain's number and the block's number stay in the range of an `int` of 32 bits.
pub initialize-Ints : (argv : List Bytes) (a : Application) → Ints a → Ints (initialize argv a).1
unfolding initialize
initialize-Ints argv a k =
    with_client-Ints (parse_args handlers argv a)
      (parse_args-keeps Ints handlers argv a handlers-Keeps k)
