-- ===== src/Cli/Copy/Scripts.antt =====
-- internal/cli/copy.go: the shell scripts of `push` and `pull`. `quote` is `%q`.
use kluster_one.Prelude.{◌++◌, Bytes, codes}
use kluster_one.Cli.Payload.{pull_sentinel_begin, pull_sentinel_end}

unfoldable pub build_push_script : (Bytes → Bytes) → Bytes → Bytes → Bytes → Bytes
build_push_script quote remote_path payload mode =
    codes "#!/bin/sh\nset -eu\ndst="
    ++ (quote remote_path
        ++ (codes
              "\ntmp=\"${dst}.tmp.$$\"\nmkdir -p \"$(dirname \"$dst\")\"\nbase64 -d > \"$tmp\" <<'_KO_PAYLOAD_'\n"
            ++ (payload
                ++ (codes "\n_KO_PAYLOAD_\nchmod "
                    ++ (mode
                        ++ codes
                            " \"$tmp\"\nmv -f \"$tmp\" \"$dst\"\necho \"pushed $(wc -c < \"$dst\") bytes to $dst\"\n")))))

unfoldable pub build_pull_script : (Bytes → Bytes) → Bytes → Bytes
build_pull_script quote remote_path =
    codes "#!/bin/sh\nset -eu\nsrc="
    ++ (quote remote_path
        ++ (codes
              "\nif [ ! -f \"$src\" ]; then\n\techo \"no such file: $src\" >&2\n\texit 2\nfi\necho "
            ++ (quote pull_sentinel_begin
                ++ (codes "\nbase64 -w0 \"$src\"\necho\necho "
                    ++ (quote pull_sentinel_end ++ codes "\n")))))
