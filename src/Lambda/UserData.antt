-- ===== src/Lambda/UserData.antt =====
-- github-runner-scaler/main.go: the scripts that an instance starts with.
use actionsspot.Prelude.{ℤ, String, ◌+++◌, show_int, join, List, [], ◌∷◌}
use actionsspot.Lambda.Config.{Config}

abbrev labels_text : List String → String
labels_text [] = "self-hosted,linux,x64"
labels_text (label ∷ labels) = join "," (label ∷ labels)

abbrev lines : List String → String
lines = join "\n"

unfoldable pub generate_user_data_script_for_job : ℤ → List String → String
generate_user_data_script_for_job job_id labels =
    let runner_name = "runner-job-" +++ show_int job_id in
    lines (
      "#!/bin/bash"
      ∷ "set -e"
      ∷ "echo \"This legacy method needs a registration token\""
      ∷ ("echo \"Runner: "
          +++ runner_name
          +++ ", Labels: "
          +++ labels_text labels
          +++ ", Job: "
          +++ show_int job_id
          +++ "\"")
      ∷ "# This would normally setup the runner but needs proper token handling"
      ∷ ""
      ∷ [])

module _ (c : Config) where
  unfoldable pub generate_user_data_script_with_token : String → String → List String → String
  generate_user_data_script_with_token runner_name registration_token labels = lines (
      "#!/bin/bash"
      ∷ "set -e"
      ∷ ""
      ∷ "# Update system"
      ∷ "apt-get update -y"
      ∷ "apt-get install -y curl jq unzip awscli"
      ∷ ""
      ∷ "# Create runner user"
      ∷ "useradd -m -s /bin/bash runner"
      ∷ "usermod -aG sudo runner"
      ∷ "echo 'runner ALL=(ALL) NOPASSWD:ALL' >> /etc/sudoers"
      ∷ ""
      ∷ "# Switch to runner user and setup runner"
      ∷ "sudo -u runner bash << 'EOF'"
      ∷ "cd /home/runner"
      ∷ ""
      ∷ "# Download and install GitHub Actions runner"
      ∷ "curl -o actions-runner-linux-x64-2.311.0.tar.gz -L https://github.com/actions/runner/releases/download/v2.311.0/actions-runner-linux-x64-2.311.0.tar.gz"
      ∷ "tar xzf ./actions-runner-linux-x64-2.311.0.tar.gz"
      ∷ ""
      ∷ "# Configure runner for GHE"
      ∷ ("./config.sh --url "
          +++ c.github_enterprise_url
          +++ "/orgs/"
          +++ c.organization_name
          +++ " --token "
          +++ registration_token
          +++ " --name "
          +++ runner_name
          +++ " --labels "
          +++ labels_text labels
          +++ " --work _work --replace --ephemeral")
      ∷ ""
      ∷ "# Start runner"
      ∷ "./run.sh &"
      ∷ "EOF"
      ∷ ""
      ∷ "# Signal completion"
      ∷ "REGION=$(curl -s http://169.254.169.254/latest/meta-data/placement/region)"
      ∷ "aws logs create-log-group --log-group-name \"/aws/ec2/github-runner\" --region $REGION || true"
      ∷ ("aws logs create-log-stream --log-group-name \"/aws/ec2/github-runner\" --log-stream-name \""
          +++ runner_name +++ "\" --region $REGION || true")
      ∷ ("aws logs put-log-events --log-group-name \"/aws/ec2/github-runner\" --log-stream-name \""
          +++ runner_name +++ "\" --log-events timestamp=$(date +%s000),message=\"Runner "
          +++ runner_name +++ " started successfully\" --region $REGION || true")
      ∷ ""
      ∷ "# Keep instance alive while runner is working"
      ∷ "while pgrep -f \"Runner.Listener\" > /dev/null; do"
      ∷ "    sleep 30"
      ∷ "done"
      ∷ ""
      ∷ "# Self-terminate when runner job is done"
      ∷ "aws ec2 terminate-instances --instance-ids $(curl -s http://169.254.169.254/latest/meta-data/instance-id) --region $REGION || true"
      ∷ ""
      ∷ [])
