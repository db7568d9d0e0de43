-- ===== src/Samples/Queries.antt =====
-- Runs of the query compiler, and its theorems at them.
use soap_sqlx.Prelude.{◌≡◌, ◌↔◌, refl, ok, nat_to_string, int_to_string, Succeeds, ◌<◌, ◌^◌}
use soap_sqlx.Mapping.{resolve}
use soap_sqlx.Binding.{normalize_binding, placeholder_cast, column_expression}
use soap_sqlx.Output.{push_binding}
use soap_sqlx.Compiler.{compile_condition, compile_find, compile_count}
use soap_sqlx.Compiler.Pieces.{condition_pieces, find_pieces, count_pieces}
use soap_sqlx.Compiler.Correct.{
  IsRendering, compile_condition-IsRendering, compile_find-IsRendering, compile_count-IsRendering,
}
use soap_sqlx.Compiler.Values.{blank, compile_condition-blank, compile_find-blank}
use soap_sqlx.Compiler.Compiles.{
  IsWellTyped, WhereTyped, SortsMapped, LimitFits, compile_condition_iff, compile_find_iff,
  compile_count_iff,
}
use soap_sqlx.Compiler.Counts.{filter_only, compile_count-eq-compile_find}
use soap_sqlx.Samples.{sample}
use soap_sqlx.Samples.Fields.{
  fields, older, older_query, search, search_query, counted_query, thirty, forty_one,
}

pub compiled_older :
    compile_condition sample fields (older thirty "A%") ≡ ok (older_query "30" "A%")
unfolding compile_condition resolve normalize_binding push_binding placeholder_cast int_to_string
    column_expression nat_to_string
compiled_older = refl

compiled_older41 :
    compile_condition sample fields (older forty_one "B'") ≡ ok (older_query "41" "B'")
unfolding compile_condition resolve normalize_binding push_binding placeholder_cast int_to_string
    column_expression nat_to_string
compiled_older41 = refl

pub compiled_search : compile_find sample fields (search thirty "A%") ≡ ok (search_query "30" "A%")
unfolding compile_find resolve normalize_binding push_binding placeholder_cast int_to_string
    column_expression nat_to_string
compiled_search = refl

compiled_search41 : compile_find sample fields (search forty_one "") ≡ ok (search_query "41" "")
unfolding compile_find resolve normalize_binding push_binding placeholder_cast int_to_string
    column_expression nat_to_string
compiled_search41 = refl

counted_search : compile_count sample fields (search thirty "A%") ≡ ok (counted_query "30" "A%")
unfolding compile_count resolve normalize_binding push_binding placeholder_cast int_to_string
    column_expression nat_to_string
counted_search = refl

compile_find-IsRendering_example :
    IsRendering sample (find_pieces sample fields (search thirty "A%")) (search_query "30" "A%")
compile_find-IsRendering_example =
    compile_find-IsRendering sample fields (search thirty "A%") (search_query "30" "A%")
      compiled_search

compile_condition-IsRendering_example :
    IsRendering sample (condition_pieces sample fields (older thirty "A%")) (older_query "30" "A%")
compile_condition-IsRendering_example =
    compile_condition-IsRendering sample fields (older thirty "A%") (older_query "30" "A%")
      compiled_older

compile_count-IsRendering_example :
    IsRendering sample (count_pieces sample fields (search thirty "A%")) (counted_query "30" "A%")
compile_count-IsRendering_example =
    compile_count-IsRendering sample fields (search thirty "A%") (counted_query "30" "A%")
      counted_search

compile_find-blank_example : (search_query "30" "A%").sql ≡ (search_query "41" "").sql
unfolding blank
compile_find-blank_example =
    compile_find-blank sample fields (search thirty "A%") (search forty_one "")
      (search_query "30" "A%") (search_query "41" "") refl compiled_search compiled_search41

compile_condition-blank_example : (older_query "30" "A%").sql ≡ (older_query "41" "B'").sql
unfolding blank
compile_condition-blank_example =
    compile_condition-blank sample fields (older thirty "A%") (older forty_one "B'")
      (older_query "30" "A%") (older_query "41" "B'") refl compiled_older compiled_older41

compile_condition_iff_example : Succeeds (compile_condition sample fields (older thirty "A%")) ↔ (
    (sample.validate_condition (older thirty "A%") ≡ ok tt)
    × IsWellTyped sample fields (older thirty "A%"))
compile_condition_iff_example = compile_condition_iff sample fields (older thirty "A%")

compile_find_iff_example : Succeeds (compile_find sample fields (search thirty "A%")) ↔ (
    (sample.validate_params (search thirty "A%") ≡ ok tt)
    × WhereTyped sample fields (search thirty "A%").condition
    × SortsMapped sample fields (search thirty "A%").sort
    × LimitFits sample fields (search thirty "A%").limit
    × (20 < 2 ^ 63))
compile_find_iff_example = compile_find_iff sample fields (search thirty "A%")

compile_count_iff_example : Succeeds (compile_count sample fields (search thirty "A%")) ↔ (
    (sample.validate_params (search thirty "A%") ≡ ok tt)
    × WhereTyped sample fields (search thirty "A%").condition)
compile_count_iff_example = compile_count_iff sample fields (search thirty "A%")

compile_count-eq-compile_find_example :
    compile_count sample fields (search thirty "A%")
    ≡ compile_find sample fields (filter_only (search thirty "A%"))
compile_count-eq-compile_find_example =
    compile_count-eq-compile_find sample fields (search thirty "A%") refl
