-- ===== src/OpenVpn/Directives.antt =====
-- internal/profiles/openvpn_policy.go: the tables of directives.
use tunnelfolio.Prelude.{
  ℕ, String, Bool, true, false, Option, none, some, List, [], ◌∷◌, if◌then◌else◌,
}
use tunnelfolio.Prelude.Text.{Text, codes, eq_text}

-- `openVPNInlineBlocks`
unfoldable pub inline_blocks : List String
inline_blocks = "ca" ∷ "cert" ∷ "key" ∷ "tls-auth" ∷ "tls-crypt" ∷ "tls-crypt-v2" ∷ []

-- `openVPNAllowedDirectives`: the fewest and the most arguments of each.
unfoldable pub allowed_directives : List (String × ℕ × ℕ)
allowed_directives =
    ("allow-compression", 1, 1)
    ∷ ("allow-pull-fqdn", 0, 0)
    ∷ ("auth", 1, 1)
    ∷ ("auth-nocache", 0, 0)
    ∷ ("auth-retry", 1, 1)
    ∷ ("cipher", 1, 1)
    ∷ ("client", 0, 0)
    ∷ ("comp-lzo", 0, 1)
    ∷ ("compress", 0, 1)
    ∷ ("connect-retry", 1, 2)
    ∷ ("connect-retry-max", 1, 1)
    ∷ ("connect-timeout", 1, 1)
    ∷ ("data-ciphers", 1, 1)
    ∷ ("data-ciphers-fallback", 1, 1)
    ∷ ("dev", 1, 1)
    ∷ ("dev-type", 1, 1)
    ∷ ("dhcp-option", 2, 3)
    ∷ ("explicit-exit-notify", 0, 1)
    ∷ ("fast-io", 0, 0)
    ∷ ("hand-window", 1, 1)
    ∷ ("inactive", 1, 2)
    ∷ ("keepalive", 2, 2)
    ∷ ("key-direction", 1, 1)
    ∷ ("link-mtu", 1, 1)
    ∷ ("mssfix", 0, 2)
    ∷ ("mute-replay-warnings", 0, 0)
    ∷ ("nobind", 0, 0)
    ∷ ("ns-cert-type", 1, 1)
    ∷ ("ping", 1, 1)
    ∷ ("ping-exit", 1, 1)
    ∷ ("ping-restart", 1, 1)
    ∷ ("persist-key", 0, 0)
    ∷ ("persist-tun", 0, 0)
    ∷ ("peer-fingerprint", 1, 1)
    ∷ ("proto", 1, 1)
    ∷ ("pull", 0, 0)
    ∷ ("pull-filter", 2, 2)
    ∷ ("rcvbuf", 1, 1)
    ∷ ("redirect-gateway", 0, 8)
    ∷ ("redirect-private", 0, 8)
    ∷ ("remote", 1, 3)
    ∷ ("remote-cert-ku", 1, 8)
    ∷ ("remote-cert-tls", 1, 1)
    ∷ ("remote-random", 0, 0)
    ∷ ("remote-random-hostname", 0, 0)
    ∷ ("reneg-sec", 1, 1)
    ∷ ("resolv-retry", 1, 1)
    ∷ ("route", 1, 4)
    ∷ ("route-delay", 0, 2)
    ∷ ("route-gateway", 1, 1)
    ∷ ("route-ipv6", 1, 2)
    ∷ ("route-metric", 1, 1)
    ∷ ("route-nopull", 0, 0)
    ∷ ("sndbuf", 1, 1)
    ∷ ("socket-flags", 1, 8)
    ∷ ("tcp-nodelay", 0, 0)
    ∷ ("tls-cipher", 1, 1)
    ∷ ("tls-ciphersuites", 1, 1)
    ∷ ("tls-client", 0, 0)
    ∷ ("tls-exit", 0, 0)
    ∷ ("tls-version-max", 1, 2)
    ∷ ("tls-version-min", 1, 2)
    ∷ ("topology", 1, 1)
    ∷ ("tran-window", 1, 1)
    ∷ ("tun-mtu", 1, 1)
    ∷ ("tun-mtu-extra", 1, 1)
    ∷ ("verify-x509-name", 1, 2)
    ∷ []

-- The keys of `openVPNDeniedDirectives`; the reasons only word a message.
unfoldable pub denied_directives : List String
denied_directives =
    "askpass" ∷ "auth-gen-token" ∷ "auth-gen-token-secret" ∷ "auth-user-pass"
    ∷ "auth-user-pass-verify" ∷ "cd" ∷ "chroot" ∷ "client-connect" ∷ "client-crresponse"
    ∷ "client-disconnect" ∷ "config" ∷ "daemon" ∷ "down" ∷ "down-pre" ∷ "group"
    ∷ "http-proxy-user-pass" ∷ "ipchange" ∷ "learn-address" ∷ "log" ∷ "log-append" ∷ "management"
    ∷ "management-client" ∷ "management-external-key" ∷ "management-hold"
    ∷ "management-query-passwords" ∷ "management-signal" ∷ "machine-readable-output" ∷ "plugin"
    ∷ "route-up" ∷ "script-security" ∷ "secret" ∷ "setenv-safe" ∷ "socks-proxy" ∷ "status"
    ∷ "status-version" ∷ "syslog" ∷ "tls-verify" ∷ "tmp-dir" ∷ "up" ∷ "up-delay" ∷ "up-restart"
    ∷ "user" ∷ "verb" ∷ "writepid" ∷ []

-- Membership in a table of words.
unfoldable pub has_word : List String → Text → Bool
has_word [] name = false
has_word (w ∷ words) name =
    let rest = has_word words name in if eq_text (codes w) name then true else rest

unfoldable pub bounds_of : List (String × ℕ × ℕ) → Text → Option (ℕ × ℕ)
bounds_of [] name = none
bounds_of ((w, low, high) ∷ table) name =
    let rest = bounds_of table name in if eq_text (codes w) name then some (low, high) else rest
