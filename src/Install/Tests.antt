-- ===== src/Install/Tests.antt =====
-- Flags and quoted values, and the theorem on quotes at one.
use open_agent_lock.Common.{[], codes, err, none, ok, refl, some, true, ◌++◌, ◌∷◌, ◌≡◌}
use open_agent_lock.Install.{parse_flags, shell_quote, totp, unknown_tier}
use open_agent_lock.Install.Quoted.{read_shell_word, shell_quote-read_shell_word}

flags_read :
    parse_flags
      (λ p. codes "/w/" ++ p)
      (codes "--tier"
        ∷ codes "totp"
        ∷ codes "-y"
        ∷ codes "--config-dir"
        ∷ codes "c"
        ∷ codes "--code"
        ∷ [])
    ≡ ok (record {
      yes = true;
      daemon_url = none;
      config_dir_override = some (codes "/w/c");
      tier = totp;
      totp_code = none;
      totp_passphrase = none;
    })
unfolding parse_flags
flags_read = refl

no_tier : parse_flags (λ p. p) (codes "--tier" ∷ []) ≡ err (unknown_tier none)
unfolding parse_flags
no_tier = refl

quoted_name : shell_quote (codes "a'b") ≡ codes "'a'\\''b'"
unfolding shell_quote
quoted_name = refl

shell_quote-read_shell_word_example :
    read_shell_word (shell_quote (codes "a'b c") ++ b' ' ∷ codes "run")
    ≡ some (codes "a'b c", b' ' ∷ codes "run")
shell_quote-read_shell_word_example = shell_quote-read_shell_word (codes "a'b c") (codes "run")
