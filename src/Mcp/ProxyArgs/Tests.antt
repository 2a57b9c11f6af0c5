-- ===== src/Mcp/ProxyArgs/Tests.antt =====
-- Runs of the argument parser.
use open_agent_lock.Common.{List, Text, [], codes, err, ok, refl, ◌∷◌, ◌≡◌, ◌↔◌, ◌≢◌}
use open_agent_lock.Mcp.ProxyArgs.{
  ProxyArgs, missing_child, missing_name, parse_proxy_args, unrecognized_arg,
}
use open_agent_lock.Mcp.ProxyArgs.Accepted.{Reads, parse_proxy_args_iff}

runs :
    (parse_proxy_args (codes "--name" ∷ codes "gh" ∷ codes "--" ∷ codes "npx" ∷ codes "--" ∷ [])
      ≡ ok (record {
        server_name = codes "gh";
        child_cmd = codes "npx";
        child_args = codes "--" ∷ [];
      }))
    × (parse_proxy_args (codes "--name=gh" ∷ codes "--" ∷ codes "npx" ∷ [])
        ≡ ok (record { server_name = codes "gh"; child_cmd = codes "npx"; child_args = [] }))
    × (parse_proxy_args (codes "--name" ∷ []) ≡ err missing_name)
    × (parse_proxy_args (codes "--name" ∷ codes "gh" ∷ []) ≡ err missing_child)
    × (parse_proxy_args (codes "-x" ∷ []) ≡ err (unrecognized_arg (codes "-x")))
unfolding parse_proxy_args
runs = (refl, refl, refl, refl, refl)

abbrev argv : List Text
argv = codes "--name=a" ∷ codes "--name" ∷ codes "gh" ∷ codes "--" ∷ codes "npx" ∷ codes "-y" ∷ []

abbrev args : ProxyArgs
args = record { server_name = codes "gh"; child_cmd = codes "npx"; child_args = codes "-y" ∷ [] }

parse_proxy_args_iff_example :
    (parse_proxy_args argv ≡ ok args)
    ↔ ((codes "gh" ≢ []) × Reads [] argv (codes "gh") (codes "npx" ∷ codes "-y" ∷ []))
parse_proxy_args_iff_example = parse_proxy_args_iff argv args
