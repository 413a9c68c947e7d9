-- ===== src/Resources/Documents.antt =====
-- The texts that the generators fill in: each is the format of `fmt.Sprintf` with its arguments, a
-- line of it at a time.
use Prim.Native.Char.{Char, code}
use kubeflow_profile_control.Prelude.{String, Bool, List, [], ◌∷◌, ◌⧺◌, ◌=?◌, if◌then◌else◌}

abbrev pub is_dash : Char → Bool
is_dash c = code c =? b'-'

-- `strings.Replace(s, "-", "", -1)`
unfoldable pub remove_dashes : String → String
remove_dashes String.[] = String.[]
remove_dashes (String.◌∷◌ c s) =
    let rest = remove_dashes s in if is_dash c then rest else String.◌∷◌ c rest

-- The lines of a text, joined by ends of line.
unfoldable pub lines : List String → String
lines [] = ""
lines (s ∷ []) = s
lines (s ∷ t ∷ rest) = s ⧺ ("\n" ⧺ lines (t ∷ rest))

unfoldable pub policy_document : String → String → String
unfolding remove_dashes lines
policy_document bucket name = lines (
    "{"
    ∷ "\t\"Version\": \"2012-10-17\","
    ∷ "\t\"Statement\": ["
    ∷ "\t\t{"
    ∷ "\t\t\t\"Sid\": \"AllowUserToSeeBucketListInTheConsole\","
    ∷ "\t\t\t\"Action\": [\"s3:ListAllMyBuckets\", \"s3:GetBucketLocation\"],"
    ∷ "\t\t\t\"Effect\": \"Allow\","
    ∷ "\t\t\t\"Resource\": [\"arn:aws:s3:::*\"]"
    ∷ "\t\t},"
    ∷ "\t\t{"
    ∷ "\t\t\t\"Sid\": \"AllowRootListingOfCompanyBucket\","
    ∷ "\t\t\t\"Action\": [\"s3:ListBucket\"],"
    ∷ "\t\t\t\"Effect\": \"Allow\","
    ∷ ("\t\t\t\"Resource\": [\"arn:aws:s3:::" ⧺ (bucket ⧺ "\"]"))
    ∷ "\t\t},"
    ∷ "\t\t{"
    ∷ "\t\t\t\"Sid\": \"AllowRootAndHomeListingOfCompanyBucket\","
    ∷ "\t\t\t\"Action\": [\"s3:ListBucket\"],"
    ∷ "\t\t\t\"Effect\": \"Allow\","
    ∷ ("\t\t\t\"Resource\": [\"arn:aws:s3:::" ⧺ (bucket ⧺ "\"],"))
    ∷ ("\t\t\t\"Condition\":{\"StringEquals\":{\"s3:prefix\":[\"\",\"pipelines/\", \"pipelines/"
        ⧺ (name ⧺ "\"],\"s3:delimiter\":[\"/\"]}}"))
    ∷ "\t\t},"
    ∷ "\t\t{"
    ∷ "\t\t\t\"Sid\": \"AllowListingOfUserFolder\","
    ∷ "\t\t\t\"Action\": [\"s3:ListBucket\"],"
    ∷ "\t\t\t\"Effect\": \"Allow\","
    ∷ ("\t\t\t\"Resource\": [\"arn:aws:s3:::" ⧺ (bucket ⧺ "\"],"))
    ∷ ("\t\t\t\"Condition\":{\"StringLike\":{\"s3:prefix\":[\"pipelines/" ⧺ (name ⧺ "/*\"]}}"))
    ∷ "\t\t},"
    ∷ "\t\t{"
    ∷ ("\t\t\t\"Sid\": \"kubeflowNS" ⧺ (remove_dashes name ⧺ "\","))
    ∷ "\t\t\t\"Effect\": \"Allow\","
    ∷ "\t\t\t\"Action\": \"s3:*\","
    ∷ "\t\t\t\"Resource\": ["
    ∷ ("\t\t\t\t\"arn:aws:s3:::" ⧺ (bucket ⧺ ("/pipelines/" ⧺ (name ⧺ "/*\""))))
    ∷ "\t\t\t]"
    ∷ "\t\t}"
    ∷ "\t]"
    ∷ "}"
    ∷ [])

unfoldable pub assume_role_policy_document : String → String → String → String
unfolding lines
assume_role_policy_document aws_account_id oidc_issuer name = lines (
    "{"
    ∷ "\t\t\"Version\": \"2012-10-17\","
    ∷ "\t\t\"Statement\": ["
    ∷ "\t\t  {"
    ∷ "\t\t\t\"Sid\": \"\","
    ∷ "\t\t\t\"Effect\": \"Allow\","
    ∷ "\t\t\t\"Principal\": {"
    ∷ ("\t\t\t  \"Federated\": \"arn:aws:iam::"
        ⧺ (aws_account_id ⧺ (":oidc-provider/" ⧺ (oidc_issuer ⧺ "\""))))
    ∷ "\t\t\t},"
    ∷ "\t\t\t\"Action\": \"sts:AssumeRoleWithWebIdentity\","
    ∷ "\t\t\t\"Condition\": {"
    ∷ "\t\t\t  \"StringLike\": {"
    ∷ ("\t\t\t\t\"" ⧺ (oidc_issuer ⧺ ":sub\": ["))
    ∷ ("\t\t\t\t  \"system:serviceaccount:" ⧺ (name ⧺ ":default-editor\""))
    ∷ "\t\t\t\t]"
    ∷ "\t\t\t  }"
    ∷ "\t\t\t}"
    ∷ "\t\t  }"
    ∷ "\t\t]"
    ∷ "\t  }"
    ∷ [])

-- The Lua code of the Envoy filter.
unfoldable pub lua_code : String → String
unfolding lines
lua_code name = lines (
    "function envoy_on_request(request_handle)"
    ∷ "  headers = request_handle:headers()"
    ∷ ("  request_handle:headers():replace(\"kubeflow-request-source-namespace\", \""
        ⧺ (name ⧺ "\")"))
    ∷ "end"
    ∷ [])

unfoldable pub argo_artifact_repo : String → String → String
unfolding lines
argo_artifact_repo bucket aws_region = lines (
    "archiveLogs: true"
    ∷ "s3:"
    ∷ ("  bucket: " ⧺ bucket)
    ∷ "  keyPrefix: pipelines"
    ∷ "  endpoint: s3.amazonaws.com"
    ∷ ("  region: " ⧺ aws_region)
    ∷ "  insecure: false"
    ∷ "  keyFormat: \"pipelines/{{workflow.namespace}}/pipelines/{{workflow.name}}/{{pod.name}}\""
    ∷ [])
