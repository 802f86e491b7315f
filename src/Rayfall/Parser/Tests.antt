-- ===== src/Rayfall/Parser/Tests.antt =====
-- Runs of the parser of src/rayfall_ast.rs, and its theorems applied to them.
use ray_exomem.Rayfall.Parser.Tokens.{is_clean, is_name, has_no_stop}
use ray_exomem.Rayfall.Parser.RoundTrip.{parse_one-emit}
use ray_exomem.Rayfall.Parser.Fuel.{parse_one-ne-out_of_fuel}
use ray_exomem.Prelude.{◌≡◌, ◌≢◌, true, refl, codes}
use ray_exomem.Rayfall.{Expr, list, symbol, string, quote, no_items, item, emit}
use ray_exomem.Rayfall.Parser.{
  ok, failed, out_of_fuel, ParseError, parse_one, parse_forms, read_forms, parse_expr, parse_symbol,
  take_symbol, stops, space_len, skip_ws_and_comments, skip, parse_string, read_string,
  unescape_char, lead, fuel_for,
}

abbrev mutation : Expr
mutation = list (
    item (symbol (codes "assert-fact")) (
      item (symbol (codes "work/main")) (
        item (string (codes "say \"hi\""))
          (item (quote (symbol (codes "p"))) (item (list no_items) no_items)))))

mutation_read :
    parse_one (codes "; ;; x\n (assert-fact work/main \"say \\\"hi\\\"\" 'p [])")
    ≡ failed ParseError.expected_symbol
unfolding parse_one parse_forms read_forms parse_expr parse_symbol take_symbol stops space_len
    skip_ws_and_comments skip parse_string read_string unescape_char lead fuel_for
mutation_read = refl

commented_read :
    parse_one (codes ";; x\n (assert-fact work/main \"say \\\"hi\\\"\" 'p [])") ≡ ok mutation
unfolding parse_one parse_forms read_forms parse_expr parse_symbol take_symbol stops space_len
    skip_ws_and_comments skip parse_string read_string unescape_char lead fuel_for
commented_read = refl

unclosed : parse_one (codes "(query m (find ?x)") ≡ failed ParseError.unterminated_list
unfolding parse_one parse_forms read_forms parse_expr parse_symbol take_symbol stops space_len
    skip_ws_and_comments skip parse_string read_string unescape_char lead fuel_for
unclosed = refl

abbrev clean_mutation : Expr
clean_mutation = list (
    item (symbol (codes "assert-fact")) (
      item (symbol (codes "work/main"))
        (item (string (codes "say \"hi\"")) (item (quote (symbol (codes "p"))) no_items))))

clean_mutation_clean : is_clean clean_mutation ≡ true
unfolding is_clean is_name has_no_stop stops space_len
clean_mutation_clean = refl

parse_one-emit_example : parse_one (emit clean_mutation) ≡ ok clean_mutation
parse_one-emit_example = parse_one-emit clean_mutation clean_mutation_clean

parse_one-ne-out_of_fuel_example :
    (parse_forms (codes "(a [b") ≢ out_of_fuel) × (parse_one (codes "(a [b") ≢ out_of_fuel)
parse_one-ne-out_of_fuel_example = parse_one-ne-out_of_fuel (codes "(a [b")
