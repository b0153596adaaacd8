-- ===== src/Api/Filters.antt =====
-- The filters that the list calls of frontend/lib/api put into their queries: each can be read back
-- under its key, as the API reads it.
use mentorio.Prelude.{◌≡◌, refl, [], Option}
use mentorio.Prelude.Text.{Text}
use mentorio.Prelude.Dict.{get}
use mentorio.Http.{Query}
use mentorio.Api.{truthy_text, or_default, get-set_if, get-start, get-empty, or_else-none}
use mentorio.Api.Invoices.{ListInvoicesParams, invoices_query}
use mentorio.Api.Expenses.{ListExpensesParams, expenses_query}
use mentorio.Api.Attendance.{ListAttendanceParams, attendance_query}
use mentorio.Api.Exams.{ListExamsParams, exams_query}
use mentorio.Api.PlatformBilling.{ListPlatformInvoicesParams, platform_invoices_query}
use mentorio.Api.Groups.{ListGroupsParams, groups_page_query}
use mentorio.Api.Payroll.{ListPayrollParams, payroll_query}

abbrev pub read_invoices : Query → ListInvoicesParams
read_invoices q = record {
  organization_id = or_default [] (get "organization" q);
  student_profile = get "student_profile" q;
  group = get "group" q;
  status = get "status" q;
  search = get "search" q;
  date_from = get "date_from" q;
  date_to = get "date_to" q;
}

abbrev pub effective_invoices : ListInvoicesParams → ListInvoicesParams
effective_invoices p = record {
  organization_id = p.organization_id;
  student_profile = truthy_text p.student_profile;
  group = truthy_text p.group;
  status = truthy_text p.status;
  search = truthy_text p.search;
  date_from = truthy_text p.date_from;
  date_to = truthy_text p.date_to;
}

-- The query for invoices holds every filter that is given and not empty, under its own key, and
-- says nothing of the others.
read_invoices-invoices_query :
    (p : ListInvoicesParams) → read_invoices (invoices_query p) ≡ effective_invoices p
unfolding invoices_query
read_invoices-invoices_query p = simp (get-set_if, get-start, get-empty, or_else-none)

abbrev pub read_expenses : Query → ListExpensesParams
read_expenses q = record {
  organization_id = or_default [] (get "organization" q);
  branch = get "branch" q;
  category = get "category" q;
  status = get "status" q;
  search = get "search" q;
  date_from = get "date_from" q;
  date_to = get "date_to" q;
}

abbrev pub effective_expenses : ListExpensesParams → ListExpensesParams
effective_expenses p = record {
  organization_id = p.organization_id;
  branch = truthy_text p.branch;
  category = truthy_text p.category;
  status = truthy_text p.status;
  search = truthy_text p.search;
  date_from = truthy_text p.date_from;
  date_to = truthy_text p.date_to;
}

-- The query for expenses holds every filter that is given and not empty, under its own key, and
-- says nothing of the others.
read_expenses-expenses_query :
    (p : ListExpensesParams) → read_expenses (expenses_query p) ≡ effective_expenses p
unfolding expenses_query
read_expenses-expenses_query p = simp (get-set_if, get-start, get-empty, or_else-none)

abbrev pub read_attendance : Query → ListAttendanceParams
read_attendance q = record {
  organization_id = or_default [] (get "organization" q);
  group = get "group" q;
  student_profile = get "student_profile" q;
  date = get "date" q;
  date_from = get "date_from" q;
  date_to = get "date_to" q;
  status = get "status" q;
  search = get "search" q;
}

abbrev pub effective_attendance : ListAttendanceParams → ListAttendanceParams
effective_attendance p = record {
  organization_id = p.organization_id;
  group = truthy_text p.group;
  student_profile = truthy_text p.student_profile;
  date = truthy_text p.date;
  date_from = truthy_text p.date_from;
  date_to = truthy_text p.date_to;
  status = truthy_text p.status;
  search = truthy_text p.search;
}

-- The query for attendance records holds every filter that is given and not empty, under its own key, and
-- says nothing of the others.
read_attendance-attendance_query :
    (p : ListAttendanceParams) → read_attendance (attendance_query p) ≡ effective_attendance p
unfolding attendance_query
read_attendance-attendance_query p = simp (get-set_if, get-start, get-empty, or_else-none)

abbrev pub read_exams : Query → ListExamsParams
read_exams q = record {
  organization_id = get "organization" q;
  group = get "group" q;
  status = get "status" q;
  date_from = get "date_from" q;
  date_to = get "date_to" q;
  search = get "search" q;
}

abbrev pub effective_exams : ListExamsParams → ListExamsParams
effective_exams p = record {
  organization_id = truthy_text p.organization_id;
  group = truthy_text p.group;
  status = truthy_text p.status;
  date_from = truthy_text p.date_from;
  date_to = truthy_text p.date_to;
  search = truthy_text p.search;
}

-- The query for exams holds every filter that is given and not empty, under its own key, and
-- says nothing of the others.
read_exams-exams_query : (p : ListExamsParams) → read_exams (exams_query p) ≡ effective_exams p
unfolding exams_query
read_exams-exams_query p = simp (get-set_if, get-start, get-empty, or_else-none)

abbrev pub read_platform_invoices : Query → ListPlatformInvoicesParams
read_platform_invoices q = record {
  organization = get "organization" q;
  subscription_plan = get "subscription_plan" q;
  status = get "status" q;
  search = get "search" q;
  date_from = get "date_from" q;
  date_to = get "date_to" q;
}

abbrev pub effective_platform_invoices : ListPlatformInvoicesParams → ListPlatformInvoicesParams
effective_platform_invoices p = record {
  organization = truthy_text p.organization;
  subscription_plan = truthy_text p.subscription_plan;
  status = truthy_text p.status;
  search = truthy_text p.search;
  date_from = truthy_text p.date_from;
  date_to = truthy_text p.date_to;
}

-- The query for the platform's invoices holds every filter that is given and not empty, under its own key, and
-- says nothing of the others.
read_platform_invoices-platform_invoices_query :
    (p : ListPlatformInvoicesParams)
    → read_platform_invoices (platform_invoices_query p) ≡ effective_platform_invoices p
unfolding platform_invoices_query
read_platform_invoices-platform_invoices_query p =
    simp (get-set_if, get-start, get-empty, or_else-none)

abbrev pub read_groups : Query → ListGroupsParams
read_groups q = record {
  organization_id = or_default [] (get "organization" q);
  course = get "course" q;
  teacher = get "teacher" q;
  status = get "status" q;
  search = get "search" q;
}

abbrev pub effective_groups : ListGroupsParams → ListGroupsParams
effective_groups p = record {
  organization_id = p.organization_id;
  course = truthy_text p.course;
  teacher = truthy_text p.teacher;
  status = truthy_text p.status;
  search = truthy_text p.search;
}

-- The query for groups, page by page, holds every filter that is given and not empty, under its own key, and
-- says nothing of the others.
read_groups-groups_page_query :
    (p : ListGroupsParams) → read_groups (groups_page_query p) ≡ effective_groups p
unfolding groups_page_query
read_groups-groups_page_query p = simp (get-set_if, get-start, get-empty, or_else-none)

-- The search of a payroll list is lost: whatever it is, the query is the same.
payroll_query-search_lost :
    (p : ListPayrollParams) (search : Option Text)
    → payroll_query (record p { search = search }) ≡ payroll_query p
unfolding payroll_query
payroll_query-search_lost p search = refl
