-- ===== src/Meta/Scenarios.antt =====
-- Records on concrete texts.
use dbx_plugin_ninty_shell.Base.{some, none, List, [], ◌∷◌, ◌++◌, ◌≡◌, refl, arith, pos, neg_ℕ}
use dbx_plugin_ninty_shell.Text.{
  cut_byte, Bytes, codes, trim_right, last_index, split_n, atoi, trim_space,
}
use dbx_plugin_ninty_shell.Meta.{
  ring_tag, parse_meta_file_value, parse_ring_meta, build_remote_script, shell_quote,
}
use dbx_plugin_ninty_shell.Meta.Ring.{marker_line, IsMarkerLine}
use dbx_plugin_ninty_shell.Meta.Quote
use dbx_plugin_ninty_shell.Meta.Quote.{read_word, bare}

abbrev sid : Bytes
sid = codes "5f"

abbrev dir : Bytes
dir = codes "/tmp/a b"

root_line : IsMarkerLine sid (codes "130") dir (pos 130)
unfolding marker_line ring_tag last_index atoi
root_line = record {
  one_line = omega arith;
  no_return = omega arith;
  first_only = refl;
  code_reads = refl;
  code_word = omega arith;
}

-- Two chunks, cut inside the marker line.
abbrev chunks : List Bytes
chunks = codes "hi\n\n__DBX_ME" ∷ codes "TA__5f__ 130 /tmp/a b\n" ∷ []

parse_ring_meta_test :
    parse_ring_meta (codes "out\n\n__DBX_META__5f__ -1 /home\r\n") sid
    ≡ some (neg_ℕ 1, codes "/home")
unfolding parse_ring_meta trim_right last_index split_n atoi
parse_ring_meta_test = refl

-- A marker that is not at the start of the last line is not read.
parse_ring_meta_inline : parse_ring_meta (codes "out __DBX_META__5f__ 0 /home\n") sid ≡ none
unfolding parse_ring_meta trim_right last_index split_n atoi
parse_ring_meta_inline = refl

windows_record_read : parse_meta_file_value (codes " 1|C:\\a|b\r\n") ≡ some (pos 1, codes "C:\\a|b")
unfolding parse_meta_file_value atoi trim_space cut_byte
windows_record_read = refl

build_remote_script_test :
    build_remote_script sid (codes "/it's") (codes "ls")
    ≡ codes
        "cd '/it'\\''s' 2>/dev/null\nls\n__dbx_rc_5f=$?\nprintf '\\n__DBX_META__5f__ %s %s\\n' \"$__dbx_rc_5f\" \"$(pwd)\"\n"
unfolding build_remote_script shell_quote
build_remote_script_test = refl

read_word-shell_quote_example :
    read_word bare (shell_quote (codes "it's") ++ codes " x") ≡ some (codes "it's", codes " x")
unfolding read_word
read_word-shell_quote_example = Quote.read_word-shell_quote (codes "it's") (codes " x") refl

abbrev script_end : Bytes
script_end =
    codes " 2>/dev/null\n"
    ++ (codes "ls"
        ++ (codes "\n__dbx_rc_"
            ++ (sid
                ++ (codes "=$?\nprintf '\\n__DBX_META__"
                    ++ (sid
                        ++ (codes "__ %s %s\\n' \"$__dbx_rc_"
                            ++ (sid ++ codes "\" \"$(pwd)\"\n")))))))

build_remote_script_cd_example :
    (word : Bytes) × (build_remote_script sid dir (codes "ls") ≡ codes "cd " ++ word)
    × (read_word bare word ≡ some (dir, script_end))
build_remote_script_cd_example = Quote.build_remote_script_cd sid dir (codes "ls") (cc)
