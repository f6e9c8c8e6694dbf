-- ===== src/Tests/Commands.antt =====
-- The theorems of the commands at concrete inputs.
use famepy.Prelude.{
  pos, ◌≡◌, refl, true, false, none, some, [], codes, bytes_eq, arith, if◌then◌else◌,
}
use famepy.Errors.{ok}
use famepy.Text.{is_ascii, is_blank}
use famepy.Runtime.{fresh_session}
use famepy.Command.{Output, quote_path, run_command}
use famepy.Command.Outcome.{outcome, made, run_command-outcome}
use famepy.Command.Include.{
  Files, drop_while, strip_bytes, after_word, file_value, file_argument, input_value, input_of,
  unquoted, base_name, has_extension, with_suffix, include_name, in_stack, line_feeds,
  drop_last_feed, read_file, include_file, replace, expand_statement, statements, join, expand_all,
  expand_command, expand, expand_input,
}
use famepy.Command.Include.Bounds.{Counts, included_size, expand-Counts}
use famepy.Command.Include.Plain.{NoInput, join-statements, expand_input-plain}
use famepy.Tests.Samples.{willing, live}

-- one file, which `a.inp` names
abbrev one_file : Files
one_file = record {
  resolve = λ name. if bytes_eq name (codes "a.inp") then some 1 else none;
  inspect = λ f. some (true, 4);
  read = λ f. some (codes "x;y\n");
}

includes : expand_input one_file 32 100 (codes "z;Input a") ≡ ok (codes "z;\nx;y\n")
unfolding expand_input expand expand_command expand_all expand_statement replace include_file
    read_file drop_last_feed line_feeds in_stack include_name with_suffix has_extension base_name
    unquoted input_of input_value file_argument file_value after_word strip_bytes drop_while
    statements is_ascii is_blank
includes = refl

file_form : input_of (codes " input  FILE( \"a b\" ) ") ≡ some (true, codes "\"a b\"")
unfolding input_of input_value file_argument file_value after_word strip_bytes drop_while
file_form = refl

plain : NoInput (statements [] none (codes "a;inputs"))
unfolding statements input_of input_value after_word drop_while
plain = ((refl, tt), refl)

expand_input-plain_example : expand_input one_file 32 100 (codes "a;inputs") ≡ ok (codes "a;inputs")
expand_input-plain_example = expand_input-plain one_file 32 100 (codes "a;inputs") plain

expand-Counts_example :
    Counts 100 0
      (included_size one_file 32 (codes "z;input a"))
      (expand one_file 100 32 [] (codes "z;input a") 0)
expand-Counts_example = expand-Counts one_file 100 32 [] (codes "z;input a") 0 (omega arith)

abbrev output : Output
output = record { path = ok (codes "/tmp/o"); captured = λ calls. ok (codes "done") }

output-quoted : quote_path (codes "/tmp/o") ≡ ok (codes "/tmp/o")
unfolding quote_path is_ascii
output-quoted = refl

output-off : (live.sessions 0).retrieval ≡ false
unfolding fresh_session
output-off = refl

run_command-outcome_example : run_command willing output 0 (codes "list") live ≡ (
  outcome (pos 0) (pos 0) (pos 0) (codes "done"),
  made (pos 0) (codes "/tmp/o") (codes "list") live,
)
run_command-outcome_example =
    run_command-outcome willing 0 output (codes "/tmp/o") (codes "/tmp/o") (codes "list")
      (codes "done") (pos 0) (pos 0) (pos 0) live refl output-quoted refl refl output-off refl refl
      refl refl

join-statements_example :
    join (statements [] none (codes "a;b")).0 (statements [] none (codes "a;b")).1 ≡ codes "a;b"
join-statements_example = join-statements [] none (codes "a;b")
